-- ===== src/Backup.antt =====
-- worker/src/backup: which backups are pruned (retention.ts).
-- A date is the number of its day from the first of year 0, and an instant is counted in
-- milliseconds from that midnight.
pub mod Keys
mod Tests
use one_mail.Base.{
  ℕ, zero, suc, ◌+◌, ◌-◌, ◌*◌, ◌/◌, ◌≤◌, ◌<◌, ◌≡◌, ◌⊎◌, refl, ap, ◌∙◌, subst, String, Option, none,
  some, List, [], ◌∷◌, ◌++◌, Bool, true, false, not, ◌&&◌, ltb, leb, if◌then◌else◌, length,
  length-append, All, In, arith, Bool-cases, Option-cases, inl, inr,
}
use one_mail.Fleet.Metrics.{day_ms}
use one_mail.Backup.Keys.{backup_key_date}

abbrev max_list_pages : ℕ
max_list_pages = 10

abbrev pub max_deletes : ℕ
max_deletes = 200

-- The first midnight of the day of the cutoff; a retention that goes back beyond year 0 ends there.
abbrev pub cutoff_day : ℕ → ℕ → ℕ
cutoff_day now retention_days = (now - retention_days * day_ms) / day_ms

-- A page of `bucket.list`: its keys, and whether another one follows.
pub record Page : Type 0 where
  pub keys : List String
  pub continues : Bool

-- The counts of a run, and the keys that it deleted.
pub record Pruned : Type 0 where
  pub deleted : List String
  pub scanned : ℕ

abbrev pub is_expired : ℕ → String → Bool
is_expired cutoff key = elim (backup_key_date key) [ none ↦ false | some d ↦ ltb d cutoff ]

unfoldable pub expired_backup_keys : List String → ℕ → List String
expired_backup_keys [] cutoff = []
expired_backup_keys (k ∷ ks) cutoff =
    let rest = expired_backup_keys ks cutoff in if is_expired cutoff k then k ∷ rest else rest

abbrev first_keys : ℕ → List String → List String
first_keys zero ks = []
first_keys (suc n) [] = []
first_keys (suc n) (k ∷ ks) = k ∷ first_keys n ks

-- One page: what it deletes is cut to the room that is left.
unfoldable pub prune_page : ℕ → Page → Pruned → Pruned
prune_page cutoff page p =
    let expired = expired_backup_keys page.keys cutoff in
    record {
      deleted = p.deleted ++ first_keys (max_deletes - length p.deleted) expired;
      scanned = p.scanned + length page.keys;
    }

-- The pages of a kind, of which at most so many are listed.
unfoldable pub prune_pages : ℕ → ℕ → List Page → Pruned → Pruned
prune_pages zero cutoff pages p = p
prune_pages (suc n) cutoff [] p = p
prune_pages (suc n) cutoff (page ∷ pages) p =
    let p' = prune_page cutoff page p in
    let rest = prune_pages n cutoff pages p' in if page.continues then rest else p'

-- The kinds in their order, each with its pages and its retention.
unfoldable pub prune_backups : ℕ → List (ℕ × List Page) → Pruned → Pruned
prune_backups now [] p = p
prune_backups now ((retention_days, pages) ∷ kinds) p =
    let p' = prune_pages max_list_pages (cutoff_day now retention_days) pages p in
    let rest = prune_backups now kinds p' in if leb max_deletes (length p.deleted) then p else rest

length-first : (n : ℕ) (ks : List String) → length (first_keys n ks) ≤ n
length-first zero ks = omega arith
length-first (suc n) [] = omega arith
length-first (suc n) (k ∷ ks) = omega (arith, length-first n ks)

-- A key whose date lies before the cutoff of one of the kinds.
abbrev pub Old : ℕ → List (ℕ × List Page) → String → Type 0
Old now kinds k = (e : ℕ × List Page) × In e kinds × (is_expired (cutoff_day now e.0) k ≡ true)

expired-All :
    (ks : List String) (cutoff : ℕ)
    → All (λ k. is_expired cutoff k ≡ true) (expired_backup_keys ks cutoff)
unfolding expired_backup_keys
expired-All [] cutoff = tt
expired-All (k ∷ ks) cutoff = elim (Bool-cases (is_expired cutoff k)) [
  | inl e ↦ rw e (e, expired-All ks cutoff)
  | inr e ↦ rw e (expired-All ks cutoff)
]

module _ (P : String → Type 0) where
  first-All : (n : ℕ) (ks : List String) → All P ks → All P (first_keys n ks)
  first-All zero ks a = tt
  first-All (suc n) [] a = tt
  first-All (suc n) (k ∷ ks) (p, a) = (p, first-All n ks a)

  append-All : (xs ys : List String) → All P xs → All P ys → All P (xs ++ ys)
  append-All [] ys a b = b
  append-All (x ∷ xs) ys (p, a) b = (p, append-All xs ys a b)

  prune_page-All :
      (cutoff : ℕ) (page : Page) (p : Pruned)
      → ((k : String) → is_expired cutoff k ≡ true → P k)
      → All P p.deleted × (length p.deleted ≤ max_deletes)
      → All P (prune_page cutoff page p).deleted
        × (length (prune_page cutoff page p).deleted ≤ max_deletes)
  unfolding prune_page
  prune_page-All cutoff page p f (a, l) =
      let ks = first_keys (max_deletes - length p.deleted) (expired_backup_keys page.keys cutoff) in
      (
        append-All p.deleted ks a
            (first-All (max_deletes - length p.deleted) _ (mono _ (expired-All page.keys cutoff))),
        omega (
          arith,
          length-append p.deleted ks,
          length-first (max_deletes - length p.deleted) (expired_backup_keys page.keys cutoff),
        ),
      )
    where
      mono : (ks : List String) → All (λ k. is_expired cutoff k ≡ true) ks → All P ks
      mono [] a = tt
      mono (k ∷ ks) (e, a) = (f k e, mono ks a)

  prune_pages-All :
      (n cutoff : ℕ) (pages : List Page) (p : Pruned)
      → ((k : String) → is_expired cutoff k ≡ true → P k)
      → All P p.deleted × (length p.deleted ≤ max_deletes)
      → All P (prune_pages n cutoff pages p).deleted
        × (length (prune_pages n cutoff pages p).deleted ≤ max_deletes)
  unfolding prune_pages prune_page
  prune_pages-All zero cutoff pages p f a = a
  prune_pages-All (suc n) cutoff [] p f a = a
  prune_pages-All (suc n) cutoff (page ∷ pages) p f a = elim (Bool-cases page.continues) [
    | inl e ↦ rw e (
        prune_pages-All n cutoff pages (prune_page cutoff page p) f
          (prune_page-All cutoff page p f a))
    | inr e ↦ rw e (prune_page-All cutoff page p f a)
  ]

prune_backups-All :
    (now : ℕ) (P : String → Type 0) (kinds : List (ℕ × List Page)) (p : Pruned)
    → ((e : ℕ × List Page)
        → In e kinds
        → (k : String) → is_expired (cutoff_day now e.0) k ≡ true
        → P k)
    → All P p.deleted × (length p.deleted ≤ max_deletes)
    → All P (prune_backups now kinds p).deleted
      × (length (prune_backups now kinds p).deleted ≤ max_deletes)
unfolding prune_backups
prune_backups-All now P [] p f a = a
prune_backups-All now P ((days, pages) ∷ kinds) p f a =
    elim (Bool-cases (leb max_deletes (length p.deleted))) [
      | inl e ↦ rw e a
      | inr e ↦ rw e (
          prune_backups-All now P kinds (prune_pages max_list_pages (cutoff_day now days) pages p)
            (λ x i. f x (inr i))
            (prune_pages-All P max_list_pages (cutoff_day now days) pages p
              (f (days, pages) (inl refl)) a))
    ]

pub prune_backups-Old :
    (now : ℕ) (kinds : List (ℕ × List Page))
    → All (Old now kinds) (prune_backups now kinds (record { deleted = []; scanned = 0 })).deleted
      × (length (prune_backups now kinds (record { deleted = []; scanned = 0 })).deleted
          ≤ max_deletes)
prune_backups-Old now kinds =
    prune_backups-All now (Old now kinds) kinds (record { deleted = []; scanned = 0 })
      (λ e i k x. (e, i, x)) (tt, omega arith)
