-- ===== src/Fleet/Placement/Chosen.antt =====
-- worker/src/fleet/placement.ts: the two loops of `choosePlacement`.
use one_mail.Base.{
  ℕ, ◌<◌, ◌≡◌, ◌⊎◌, refl, sym, ap, subst, ◌∙◌, String, Option, none, some, List, [], ◌∷◌, Bool,
  false, get, get-put_all, In, In-append, All, All-In, arith, Bool-cases, Option-cases, inl, inr,
  if◌then◌else◌, text_key,
}
use one_mail.Fleet.Contracts.{Shard, CloudAccount, FleetConfig, ok, >>=-eq-ok}
use one_mail.Fleet.Placement.{
  Score, within_affinity_window, PlacementInput, Candidate, placed, Verdict, skipped, unmeasured,
  full, eligible, judge, Scan, absorb, scan, preferred, choose, select, decide_placement,
  choose_placement,
}
use one_mail.Fleet.Placement.Sound.{
  Qualifies, HasLimits, score_shard_below, account_of, judge-Judged, usable_facts, measured_facts,
  current_facts,
}

-- Every account and every shard has positive limits.
pub record HasAllLimits (config : FleetConfig) : Type 0 where
  pub accounts :
      All
        (λ a. (0 < a.daily_read_limit) × (0 < a.daily_write_limit) × (0 < a.worker_request_limit))
        config.accounts
  pub shards : All (λ s. 0 < s.storage_limit_bytes) config.shards

limits_of :
    (config : FleetConfig) (sh : Shard) (a : CloudAccount)
    → HasAllLimits config
    → In sh config.shards
    → In a config.accounts
    → HasLimits sh a
limits_of config sh a h i j =
    let p = All-In _ config.accounts a h.accounts j in
    record {
      reads = p.0;
      writes = p.1;
      requests = p.2;
      bytes = All-In _ config.shards sh h.shards i;
    }

account_source :
    (i : PlacementInput) (sh : Shard) (a : CloudAccount)
    → account_of i sh ≡ some a
    → (a.account_key ≡ sh.account_key) × In a i.config.accounts
unfolding get
account_source i sh a e =
    elim (get-put_all (λ (x : CloudAccount). x.account_key) [] i.config.accounts sh.account_key a
      e) [ inl n ↦ cc | inr x ↦ x ]

pub judge-Qualifies :
    (i : PlacementInput) (sh : Shard) (c : Candidate)
    → HasAllLimits i.config
    → In sh i.config.shards
    → judge i sh ≡ ok (eligible c)
    → (account : CloudAccount) × (account.account_key ≡ c.account_key)
      × (sh.shard_id ≡ c.shard_id)
      × Qualifies i sh account
judge-Qualifies i sh c limits member h =
    let j = judge-Judged i sh c h in
    let source = account_source i sh j.account j.held_by in
    let u = usable_facts i sh j.account j.usable in
    let m =
      measured_facts i sh j.account (get i.metrics j.account.account_key) j.series j.size
        j.is_measured in
    let f = current_facts j.series.report.snapshot i.now m.3 in
    let b =
      score_shard_below i sh j.account j.series j.size
        (limits_of i.config sh j.account limits member source.1) j.scored j.below in
    (
      j.account,
      sym j.account_named,
      sym j.shard_named,
      record {
        listed = source.1;
        holder = source.0;
        enabled = u.0;
        not_primary = u.1;
        is_healthy = u.2;
        schema = u.3;
        protocol = u.4;
        series = j.series;
        size = j.size;
        found = m.0;
        sized = m.1;
        sampled = m.2;
        is_authoritative = f.0;
        observed_today = f.1;
        not_future = f.2;
        is_fresh = f.3;
        reads = b.0;
        writes = b.1;
        requests = b.2;
        bytes = b.3;
      },
    )

-- The candidates of a scan are shards that were judged eligible.
absorb-In :
    (s : Scan) (v : Verdict) (c : Candidate)
    → In c (absorb s v).candidates
    → In c s.candidates ⊎ (v ≡ eligible c)
unfolding absorb
absorb-In s skipped c m = inl m
absorb-In s unmeasured c m = inl m
absorb-In s full c m = inl m
absorb-In s (eligible d) c m = elim (In-append s.candidates (d ∷ []) c m) [
  | inl i ↦ inl i
  | inr (inl e) ↦ inr (ap eligible e)
  | inr (inr i) ↦ elim i [ ]
]

pub scan-candidates :
    (i : PlacementInput) (shs : List Shard) (s : Scan) {s' : Scan} (c : Candidate)
    → scan i shs s ≡ ok s'
    → In c s'.candidates
    → In c s.candidates ⊎ ((sh : Shard) × In sh shs × (judge i sh ≡ ok (eligible c)))
unfolding scan
scan-candidates i [] s {s'} c h m =
    let e : s' ≡ s = ground arith in inl (subst (λ (x : Scan). In c x.candidates) e m)
scan-candidates i (sh ∷ shs) s c h m =
    let (v, j, rest) = >>=-eq-ok (judge i sh) (λ v. scan i shs (absorb s v)) h in
    elim (scan-candidates i shs (absorb s v) c rest m) [
      | inr (x, y, z) ↦ inr (x, inr y, z)
      | inl a ↦ elim (absorb-In s v c a) [ inl b ↦ inl b | inr e ↦ inr (sh, inl refl, j ∙ ap ok e) ]
    ]

choose-cases :
    (had : Option Candidate) (d : Candidate) → (had ≡ some (choose had d)) ⊎ (d ≡ choose had d)
unfolding choose
choose-cases none d = inr refl
choose-cases (some x) d = elim (Bool-cases (preferred d x)) [
  | inl e ↦ inr (ap (λ (b : Bool). if b then d else x) (sym e))
  | inr e ↦ inl (ap (λ (b : Bool). some (if b then d else x)) (sym e))
]

considered :
    (best : Score) (had : Option Candidate) (d c : Candidate)
    → (if within_affinity_window d.score best then some (choose had d) else had) ≡ some c
    → (had ≡ some c) ⊎ (d ≡ c)
considered best had d c e = ground (arith, choose-cases had d)

-- What the second loop selects is what it had or a candidate.
pub select-In :
    (best : Score) (cs : List Candidate) (had : Option Candidate) (c : Candidate)
    → select best had cs ≡ some c
    → (had ≡ some c) ⊎ In c cs
unfolding select
select-In best [] had c h = inl h
select-In best (d ∷ cs) had c h = elim (select-In best cs _ c h) [
  | inr i ↦ inr (inr i)
  | inl e ↦ elim (considered best had d c e) [ inl x ↦ inl x | inr y ↦ inr (inl y) ]
]

abbrev pub start : Scan
start = record { candidates = []; best = none; is_stale = false }

-- The winner of a placement: what the scan found best, and what the second loop selected.
pub record Won (i : PlacementInput) (shard account : String) (ppm : ℕ) : Type 0 where
  pub scanned : Scan
  pub best : Candidate
  pub winner : Candidate
  pub scan_returned : scan i i.config.shards start ≡ ok scanned
  pub was_best : scanned.best ≡ some best
  pub selected : select best.score none scanned.candidates ≡ some winner
  pub shard_named : winner.shard_id ≡ shard
  pub account_named : winner.account_key ≡ account

pub choose_placement-Won :
    (i : PlacementInput) (shard account : String) (ppm : ℕ)
    → choose_placement i ≡ ok (placed shard account ppm)
    → Won i shard account ppm
unfolding choose_placement decide_placement
choose_placement-Won i shard account ppm h =
    let (s, e, f) = >>=-eq-ok (scan i i.config.shards start) decide_placement h in
    elim (Option-cases s.best) [
      | inl n ↦ ground arith
      | inr (b, q) ↦ elim (Option-cases (select b.score none s.candidates)) [
        | inl n ↦ ground arith
        | inr (w, g) ↦ record {
          scanned = s;
          best = b;
          winner = w;
          scan_returned = e;
          was_best = q;
          selected = g;
          shard_named = ground arith;
          account_named = ground arith;
        }
      ]
    ]

-- A placement names a configured shard and its account, and both qualify.
pub choose_placement-Qualifies :
    (i : PlacementInput) (shard account : String) (ppm : ℕ)
    → HasAllLimits i.config
    → choose_placement i ≡ ok (placed shard account ppm)
    → (sh : Shard) × (a : CloudAccount) × In sh i.config.shards
      × (sh.shard_id ≡ shard)
      × (a.account_key ≡ account)
      × Qualifies i sh a
choose_placement-Qualifies i shard account ppm limits h =
    let w = choose_placement-Won i shard account ppm h in
    elim (select-In w.best.score w.scanned.candidates none w.winner w.selected) [
      | inl n ↦ cc
      | inr m ↦ elim (scan-candidates i i.config.shards start w.winner w.scan_returned m) [
        | inl n ↦ elim n [ ]
        | inr (sh, member, j) ↦
            let (a, x, y, q) = judge-Qualifies i sh w.winner limits member j in
            (sh, a, member, y ∙ w.shard_named, x ∙ w.account_named, q)
      ]
    ]
