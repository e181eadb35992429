-- ===== src/Unified/ShardMap/Owned.antt =====
-- worker/src/unified/shard_map.ts: what a map that was parsed satisfies.
use one_mail.Base.{
  ◌≡◌, subst, String, Option, some, List, [], ◌∷◌, map, true, false, Dict, get, any, includes,
  ◌===◌, text_key, All, arith, Option-cases, inl, inr,
}
use one_mail.Fleet.Parse.{Json}
use one_mail.Fleet.Parse.Config.{Url}
use one_mail.Unified.ShardMap.{
  ShardEndpoint, ShardMap, MapText, absent, broken, parsed, empty_map, trim, text_of, object_of,
  array_of, read_endpoint, read_endpoints, read_accounts, parse_shard_map,
}

-- No id stands among those before it or twice.
abbrev pub Fresh : List String → List String → Type 0
Fresh seen [] = Unit
Fresh seen (id ∷ ids) = (includes seen id ≡ false) × Fresh (id ∷ seen) ids

-- Every account belongs to a shard of the map, no account or shard stands twice, and no shard is
-- called `primary`, the name of the local database.
pub record Routed (m : ShardMap) : Type 0 where
  pub owned : All (λ e. any (λ s. s.id === e.1) m.shards ≡ true) m.accounts
  pub accounts_fresh : Fresh [] (map (λ e. e.0) m.accounts)
  pub shards_fresh : Fresh [] (map (λ s. s.id) m.shards)
  pub none_primary : All (λ s. (s.id === "primary") ≡ false) m.shards

read_accounts-Fresh :
    (shards : List ShardEndpoint) (seen : List String) (es : Dict String Json)
    (as' : Dict String String)
    → read_accounts shards seen es ≡ some as'
    → Fresh seen (map (λ e. e.0) as') × All (λ e. any (λ s. s.id === e.1) shards ≡ true) as'
unfolding read_accounts
read_accounts-Fresh shards seen [] [] h = (tt, tt)
read_accounts-Fresh shards seen [] (a ∷ as') h = cc
read_accounts-Fresh shards seen ((k, v) ∷ es) as' h = elim (Option-cases (text_of (some v))) [
  | inl e ↦ let x : ⊥ = ground arith in elim x [ ]
  | inr (o, e) ↦ elim (Option-cases (read_accounts shards (trim k ∷ seen) es)) [
    | inl f ↦ let x : ⊥ = ground arith in elim x [ ]
    | inr (rest, f) ↦
        let (c, d) = read_accounts-Fresh shards (trim k ∷ seen) es rest f in
        let u : ((trim k, o) ∷ rest) ≡ as' = ground arith in
        subst
          (λ l. Fresh seen (map (λ e. e.0) l) × All (λ e. any (λ s. s.id === e.1) shards ≡ true) l)
          u ((ground arith, c), (ground arith, d))
  ]
]

module _ (parse_url : String → Option Url) where
  read_endpoint-id :
      (seen : List String) (v : Json) (s : ShardEndpoint)
      → read_endpoint parse_url seen v ≡ some s
      → (includes seen s.id ≡ false) × ((s.id === "primary") ≡ false)
  unfolding read_endpoint
  read_endpoint-id seen v s h = ground arith

  read_endpoints-Fresh :
      (seen : List String) (vs : List Json) (ss : List ShardEndpoint)
      → read_endpoints parse_url seen vs ≡ some ss
      → Fresh seen (map (λ s. s.id) ss) × All (λ s. (s.id === "primary") ≡ false) ss
  unfolding read_endpoints
  read_endpoints-Fresh seen [] [] h = (tt, tt)
  read_endpoints-Fresh seen [] (s ∷ ss) h = cc
  read_endpoints-Fresh seen (v ∷ vs) ss h = elim (Option-cases (read_endpoint parse_url seen v)) [
    | inl e ↦ let x : ⊥ = ground arith in elim x [ ]
    | inr (s, e) ↦ elim (Option-cases (read_endpoints parse_url (s.id ∷ seen) vs)) [
      | inl f ↦ let x : ⊥ = ground arith in elim x [ ]
      | inr (rest, f) ↦
          let (a, b) = read_endpoint-id seen v s e in
          let (c, d) = read_endpoints-Fresh (s.id ∷ seen) vs rest f in
          let u : (s ∷ rest) ≡ ss = ground arith in
          subst (λ l. Fresh seen (map (λ s. s.id) l) × All (λ s. (s.id === "primary") ≡ false) l) u
            ((a, c), (b, d))
    ]
  ]

-- A map that is parsed routes every account to one of its shards.
pub parse_shard_map-Routed :
    (parse_url : String → Option Url) (text : MapText) (m : ShardMap)
    → parse_shard_map parse_url text ≡ some m
    → Routed m
unfolding parse_shard_map
parse_shard_map-Routed parse_url absent m h =
    let u : empty_map ≡ m = ground arith in subst Routed u empty_map-Routed
  where
    empty_map-Routed : Routed empty_map
    empty_map-Routed = record {
      owned = tt;
      accounts_fresh = tt;
      shards_fresh = tt;
      none_primary = tt;
    }
parse_shard_map-Routed parse_url broken m h = cc
parse_shard_map-Routed parse_url (parsed v) m h = elim (Option-cases (object_of (some v))) [
  | inl e ↦ let x : ⊥ = ground arith in elim x [ ]
  | inr (r, e) ↦ elim (Option-cases (array_of (get r "shards"))) [
    | inl f ↦ let x : ⊥ = ground arith in elim x [ ]
    | inr (vs, f) ↦ elim (Option-cases (object_of (get r "accounts"))) [
      | inl g ↦ let x : ⊥ = ground arith in elim x [ ]
      | inr (es, g) ↦ elim (Option-cases (read_endpoints parse_url [] vs)) [
        | inl i ↦ let x : ⊥ = ground arith in elim x [ ]
        | inr (ss, i) ↦ elim (Option-cases (read_accounts ss [] es)) [
          | inl j ↦ let x : ⊥ = ground arith in elim x [ ]
          | inr (as', j) ↦ build vs es ss as' i j (ground arith) (ground arith)
        ]
      ]
    ]
  ]
]
  where
    build :
        (vs : List Json) (es : Dict String Json) (ss : List ShardEndpoint)
        (as' : Dict String String)
        → read_endpoints parse_url [] vs ≡ some ss
        → read_accounts ss [] es ≡ some as'
        → ss ≡ m.shards
        → as' ≡ m.accounts
        → Routed m
    build vs es ss as' i j p q =
        let (a, b) = read_endpoints-Fresh parse_url [] vs ss i in
        let (c, d) = read_accounts-Fresh ss [] es as' j in
        record {
          owned =
              subst (λ l. All (λ e. any (λ s. s.id === e.1) l ≡ true) m.accounts) p
                (subst (All (λ e. any (λ s. s.id === e.1) ss ≡ true)) q d);
          accounts_fresh = subst (λ l. Fresh [] (map (λ e. e.0) l)) q c;
          shards_fresh = subst (λ l. Fresh [] (map (λ s. s.id) l)) p a;
          none_primary = subst (All (λ s. (s.id === "primary") ≡ false)) p b;
        }
