-- ===== src/Unified/ShardMap/Load.antt =====
-- worker/src/unified/shard_map.ts: the cached loading of the registry.
use one_mail.Base.{
  List, [], ◌∷◌, In, same-eq, subst, sym, ◌∙◌, ◌<◌, ℕ, ◌+◌, ◌≤◌, ◌≡◌, ◌≢◌, ap, refl, String, Option,
  none, some, Bool, true, false, ◌&&◌, ltb, ◌===◌, if◌then◌else◌, arith, Bool-cases, Option-cases,
  inl, inr, text_key,
}
use one_mail.Fleet.Contracts.{or_else}
use one_mail.Fleet.Parse.Config.{Url}
use one_mail.Unified.ShardMap.{ShardMap, MapText, absent, empty_map, parse_shard_map}

abbrev pub cache_ms : ℕ
cache_ms = 60000

-- The namespace of the isolate: none, or one of this name that throws or gives a text.
pub data Namespace : Type 0 where
  unbound : Namespace
  throws : (name : String) → Namespace
  gives : (name : String) → MapText → Namespace

abbrev pub name_of : Namespace → Option String
name_of unbound = none
name_of (throws name) = some name
name_of (gives name text) = some name

-- `min_generation` is `minimumGeneration(env)`, which is at least one.
pub record RegistryEnv : Type 0 where
  pub kv : Namespace
  pub required : Bool
  pub min_generation : ℕ

pub record Cached : Type 0 where
  pub at : ℕ
  pub value : ShardMap
  pub kv : Option String

abbrev same_name : Option String → Option String → Bool
same_name none none = true
same_name (some a) (some b) = a === b
same_name _ _ = false

abbrev pub is_fresh : Option Cached → RegistryEnv → ℕ → Bool
is_fresh none env now = false
is_fresh (some c) env now = same_name c.kv (name_of env.kv) && ltb now (c.at + cache_ms)

abbrev is_absent : MapText → Bool
is_absent absent = true
is_absent _ = false

module _ (parse_url : String → Option Url) where
  -- What a text that was given leads to.
  unfoldable pub accept :
      RegistryEnv → String → MapText → ℕ → Option Cached → Option Cached × Option ShardMap
  accept env name text now cached =
      if is_absent text && env.required
      then (cached, none)
      else elim (parse_shard_map parse_url text) [
        | none ↦ (cached, none)
        | some value ↦
            if env.required && ltb (or_else value.generation 0) env.min_generation
            then (cached, none)
            else (some (record { at = now; value = value; kv = some name }), some value)
      ]

  -- The cache that it leaves, and the map or the exception.
  unfoldable pub load_shard_map : Option Cached → RegistryEnv → ℕ → Option Cached × Option ShardMap
  load_shard_map cached env now =
      if is_fresh cached env now
      then elim cached [ none ↦ (none, none) | some c ↦ (some c, some c.value) ]
      else elim env.kv [
        | unbound ↦ if env.required then (cached, none) else (cached, some empty_map)
        | throws name ↦ (cached, none)
        | gives name text ↦ accept env name text now cached
      ]

-- Where a map that was loaded comes from: a cached map of the same namespace that is less than a
-- minute old, the empty map of an isolate without a namespace that does not require the registry, or
-- the text of the namespace. Where the registry is required that text is there and its generation
-- is not below the required one.
pub data Loaded (parse_url : String → Option Url) (cached : Option Cached) (env : RegistryEnv)
    (now : ℕ) (m : ShardMap) : Type 0 where
  from_cache :
      (c : Cached)
      → cached ≡ some c
      → is_fresh (some c) env now ≡ true
      → m ≡ c.value
      → Loaded parse_url cached env now m
  local :
      env.kv ≡ unbound → env.required ≡ false → m ≡ empty_map → Loaded parse_url cached env now m
  published :
      (name : String) (text : MapText)
      → env.kv ≡ gives name text
      → parse_shard_map parse_url text ≡ some m
      → (env.required ≡ true → (text ≢ absent) × (env.min_generation ≤ or_else m.generation 0))
      → Loaded parse_url cached env now m

accept-Loaded :
    (parse_url : String → Option Url) (cached : Option Cached) (env : RegistryEnv) (now : ℕ)
    (name : String) (text : MapText) (m : ShardMap)
    → env.kv ≡ gives name text
    → (accept parse_url env name text now cached).1 ≡ some m
    → Loaded parse_url cached env now m
unfolding accept
accept-Loaded parse_url cached env now name text m k h =
    elim (Option-cases (parse_shard_map parse_url text)) [
      | inl e ↦ cc_absurd (ground arith)
      | inr (v, e) ↦ published name text k (ground arith) (λ r. (there text r h, ground arith))
    ]
  where
    cc_absurd : ⊥ → Loaded parse_url cached env now m
    cc_absurd x = elim x [ ]

    there :
        (text : MapText)
        → env.required ≡ true
        → (accept parse_url env name text now cached).1 ≡ some m
        → text ≢ absent
    there text r h e = ground (arith, ap is_absent e)

-- Where the map of a load comes from.
load_shard_map-Loaded :
    (parse_url : String → Option Url) (cached : Option Cached) (env : RegistryEnv) (now : ℕ)
    (m : ShardMap)
    → (load_shard_map parse_url cached env now).1 ≡ some m
    → Loaded parse_url cached env now m
unfolding load_shard_map
load_shard_map-Loaded parse_url cached env now m h = elim (Bool-cases (is_fresh cached env now)) [
  | inl f ↦ fresh cached f h
  | inr f ↦ go env.kv refl f
]
  where
    fresh :
        (c : Option Cached)
        → is_fresh c env now ≡ true
        → (load_shard_map parse_url c env now).1 ≡ some m
        → Loaded parse_url c env now m
    fresh none f h = cc
    fresh (some c) f h = from_cache c refl f (ground arith)

    go :
        (kv : Namespace)
        → env.kv ≡ kv
        → is_fresh cached env now ≡ false
        → Loaded parse_url cached env now m
    go unbound e f = local e (ground arith) (ground arith)
    go (throws name) e f = let x : ⊥ = ground arith in elim x [ ]
    go (gives name text) e f = accept-Loaded parse_url cached env now name text m e (ground arith)

-- The loads of an isolate that requires the registry, each with what the namespace does and its time.
abbrev pub requiring : Namespace → ℕ → RegistryEnv
requiring kv generation = record { kv = kv; required = true; min_generation = generation }

unfoldable pub load_all :
    (String → Option Url) → ℕ → Option Cached → List (Namespace × ℕ) → Option Cached
unfolding load_shard_map
load_all parse_url generation cached [] = cached
load_all parse_url generation cached ((kv, now) ∷ visits) =
    load_all parse_url generation (load_shard_map parse_url cached (requiring kv generation) now).0
      visits

-- The namespace gives a text, it is there, it reads as the map, and its generation is not too old.
abbrev pub Publishes : (String → Option Url) → ℕ → Namespace → ShardMap → Type 0
Publishes parse_url generation kv m =
    (name : String) × (text : MapText) × (kv ≡ gives name text)
    × (text ≢ absent)
    × (parse_shard_map parse_url text ≡ some m)
    × (generation ≤ or_else m.generation 0)

-- One of the visits published the map at a time, under a name of the namespace.
abbrev pub PublishedAt :
    (String → Option Url) → ℕ → List (Namespace × ℕ) → ShardMap → ℕ → Option String → Type 0
PublishedAt parse_url generation visits m at name =
    (kv : Namespace) × In (kv, at) visits
    × Publishes parse_url generation kv m
    × (name_of kv ≡ name)

same_name-eq : (a b : Option String) → same_name a b ≡ true → a ≡ b
same_name-eq none none h = refl
same_name-eq none (some b) h = cc
same_name-eq (some a) none h = cc
same_name-eq (some a) (some b) h = ap (λ s. some s) (same-eq a b h)

module _ (parse_url : String → Option Url) (generation : ℕ) (visits : List (Namespace × ℕ)) where
  -- What is cached was published by a visit.
  abbrev CachedBy : Option Cached → Type 0
  CachedBy none = Unit
  CachedBy (some c) = PublishedAt parse_url generation visits c.value c.at c.kv

  accept-CachedBy :
      (name : String) (text : MapText) (now : ℕ) (cached : Option Cached)
      → In (gives name text, now) visits
      → CachedBy cached
      → CachedBy (accept parse_url (requiring (gives name text) generation) name text now cached).0
  unfolding accept
  accept-CachedBy name text now cached i h = elim (Bool-cases (is_absent text)) [
    | inl e ↦ rw e h
    | inr e ↦ elim (Option-cases (parse_shard_map parse_url text)) [
      | inl n ↦ rw (e, n) h
      | inr (v, n) ↦ elim (Bool-cases (ltb (or_else v.generation 0) generation)) [
        | inl l ↦ rw (e, n, l) h
        | inr l ↦
            rw (e, n, l)
              (
                gives name text,
                i,
                (name, text, refl, (λ t. let x = ap is_absent t in cc), n, ground arith),
                refl,
              )
      ]
    ]
  ]

  -- A cache that is fresh stays.
  fresh-CachedBy :
      (cached : Option Cached)
      → CachedBy cached
      → CachedBy
          (elim cached as (λ _. Option Cached × Option ShardMap) [
            | none ↦ (none, none)
            | some c ↦ (some c, some c.value)
          ]).0
  fresh-CachedBy none h = h
  fresh-CachedBy (some c) h = h

  load-CachedBy :
      (kv : Namespace) (now : ℕ) (cached : Option Cached)
      → In (kv, now) visits
      → CachedBy cached
      → CachedBy (load_shard_map parse_url cached (requiring kv generation) now).0
  unfolding load_shard_map
  load-CachedBy unbound now cached i h =
      elim (Bool-cases (is_fresh cached (requiring unbound generation) now)) [
        | inl f ↦ rw f (fresh-CachedBy cached h)
        | inr f ↦ rw f h
      ]
  load-CachedBy (throws name) now cached i h =
      elim (Bool-cases (is_fresh cached (requiring (throws name) generation) now)) [
        | inl f ↦ rw f (fresh-CachedBy cached h)
        | inr f ↦ rw f h
      ]
  load-CachedBy (gives name text) now cached i h =
      elim (Bool-cases (is_fresh cached (requiring (gives name text) generation) now)) [
        | inl f ↦ rw f (fresh-CachedBy cached h)
        | inr f ↦ rw f (accept-CachedBy name text now cached i h)
      ]

  load_all-CachedBy :
      (vs : List (Namespace × ℕ)) (cached : Option Cached)
      → ((v : Namespace × ℕ) → In v vs → In v visits)
      → CachedBy cached
      → CachedBy (load_all parse_url generation cached vs)
  unfolding load_all
  load_all-CachedBy [] cached sub h = h
  load_all-CachedBy ((kv, now) ∷ vs) cached sub h =
      load_all-CachedBy vs _ (λ v i. sub v (inr i))
        (load-CachedBy kv now cached (sub (kv, now) (inl refl)) h)

-- Where the registry is required no map is made up and none is too old: in any sequence of loads of an
-- isolate, which starts without a cache, a map that a load gives was published by the namespace of that
-- name, at this load or at one less than a minute before, as a text that is there, reads as that map and
-- has at least the required generation. An outage, a missing or broken text or an old generation gives
-- no map of its own.
pub load_all-Publishes :
    (parse_url : String → Option Url) (generation : ℕ) (visits : List (Namespace × ℕ))
    (kv : Namespace) (now : ℕ) (m : ShardMap)
    → (load_shard_map parse_url
        (load_all parse_url generation none visits)
        (requiring kv generation)
        now).1
      ≡ some m
    → (at : ℕ) × (now < at + cache_ms)
      × PublishedAt parse_url generation ((kv, now) ∷ visits) m at (name_of kv)
load_all-Publishes parse_url generation visits kv now m h =
    let cached = load_all parse_url generation none visits in
    let c = load_all-CachedBy parse_url generation visits visits none (λ v i. i) tt in
    elim (load_shard_map-Loaded parse_url cached (requiring kv generation) now m h) [
      | local u r e ↦ cc
      | published name text k p r ↦
          let (t, g) = r refl in (now, omega arith, (kv, inl refl, (name, text, k, t, p, g), refl))
      | from_cache d e f q ↦
          let (kv', i, p, n) = subst (CachedBy parse_url generation visits) e c in
          let w : same_name d.kv (name_of kv) ≡ true = ground arith in
          (
            d.at,
            ground arith,
            (
              kv',
              inr i,
              subst (Publishes parse_url generation kv') (sym q) p,
              n ∙ same_name-eq d.kv (name_of kv) w,
            ),
          )
    ]
