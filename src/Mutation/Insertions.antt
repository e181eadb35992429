-- ===== src/Mutation/Insertions.antt =====
-- worker/src/unified/mutation_jobs.ts: an insertion keeps the order of the jobs of an email.
use one_mail.Base.{
  ◌≤◌, ◌<◌, ◌≡◌, ◌≢◌, ◌⊎◌, inl, inr, refl, ap, ◌∙◌, subst, String, List, [], ◌∷◌, ◌++◌, false, any,
  In, In-append, In-first, ◌===◌, same-ne, text_key, arith, Bool-cases,
}
use one_mail.Mutation.{pending, Job, Candidate, next_rowid, largest}
use one_mail.Mutation.Writes.{insert}
use one_mail.Mutation.Sound.{Ascending, Sound, Ready}
use one_mail.Mutation.History.{Intent, new_job}

largest-le : (jobs : List Job) (j : Job) → In j jobs → j.rowid ≤ largest jobs
largest-le [] j i = elim i [ ]
largest-le (k ∷ jobs) j (inl e) = let r = ap (λ x. x.rowid) e in ground arith
largest-le (k ∷ jobs) j (inr i) = ground (arith, largest-le jobs j i)

pub Ascending-append :
    (jobs : List Job) (n : Job)
    → ((j : Job) → In j jobs → (j.rowid < n.rowid) × (j.id ≢ n.id))
    → Ascending jobs
    → Ascending (jobs ++ (n ∷ []))
Ascending-append [] n h a = ((λ k i. elim i [ ]), tt)
Ascending-append (j ∷ jobs) n h a = (
  (λ k i. elim (In-append jobs (n ∷ []) k i) [
    | inl x ↦ a.0 k x
    | inr (inl e) ↦ subst (λ y. (j.rowid < y.rowid) × (j.id ≢ y.id)) e (h j (inl refl))
    | inr (inr x) ↦ elim x [ ]
  ]),
  Ascending-append jobs n (λ k x. h k (inr x)) a.1,
)

-- A row that was there, or the new one.
In-end : (jobs : List Job) (n k : Job) → In k (jobs ++ (n ∷ [])) → In k jobs ⊎ (n ≡ k)
In-end jobs n k i = elim (In-append jobs (n ∷ []) k i) [
  | inl x ↦ inl x
  | inr (inl e) ↦ inr e
  | inr (inr x) ↦ elim x [ ]
]

none-same :
    (jobs : List Job) (id : String)
    → any (λ (o : Job). o.id === id) jobs ≡ false
    → (j : Job) → In j jobs
    → j.id ≢ id
none-same [] id h j i = elim i [ ]
none-same (k ∷ jobs) id h j (inl e) =
    let n : k.id ≢ id = same-ne k.id id (ground arith) in λ q. n (ap (λ x. x.id) e ∙ q)
none-same (k ∷ jobs) id h j (inr i) = none-same jobs id (ground arith) j i

module _ (jobs : List Job) (n : Job)
    (above : (j : Job) → In j jobs → (j.rowid < n.rowid) × (j.id ≢ n.id))
    (waits : (n.status ≡ pending) × (n.attempts ≡ 0)) where
  append-Sound : Sound jobs → Sound (jobs ++ (n ∷ []))
  append-Sound s = record {
    ascending = Ascending-append jobs n above s.ascending;
    started = λ j i h. elim (In-end jobs n j i) [
      | inl x ↦ s.started j x h
      | inr e ↦ let q = ap (λ x. x.status) e in ground (arith, waits.0)
    ];
    first = λ j k x y l m e. elim (In-end jobs n j x) [
      | inr a ↦ let q = ap (λ z. z.attempts) a in ground (arith, waits.1)
      | inl u ↦ elim (In-end jobs n k y) [
        | inl v ↦ s.first j k u v l m e
        | inr b ↦ let q = ap (λ z. z.rowid) b in let w = (above j u).0 in omega arith
      ]
    ];
  }

  append-Ready : (c : Candidate) → Ready jobs c → Ready (jobs ++ (n ∷ [])) c
  append-Ready c r = record {
    job = r.job;
    inside = In-first jobs (n ∷ []) r.job r.inside;
    names = r.names;
    of_email = r.of_email;
    first = λ k y m e. elim (In-end jobs n k y) [
      | inl v ↦ r.first k v m e
      | inr b ↦ let q = ap (λ z. z.rowid) b in let w = (above r.job r.inside).0 in omega arith
    ];
  }

-- An insertion adds no row, or one above all others.
pub data Added (jobs : List Job) : List Job → Type 0 where
  nothing : Added jobs jobs
  appends :
      (n : Job)
      → ((j : Job) → In j jobs → (j.rowid < n.rowid) × (j.id ≢ n.id))
      → (n.status ≡ pending) × (n.attempts ≡ 0)
      → Added jobs (jobs ++ (n ∷ []))

pub insert-Added : (i : Intent) (jobs : List Job) → Added jobs (insert (new_job i) jobs)
unfolding insert
insert-Added i jobs = elim (Bool-cases (any (λ (o : Job). o.id === i.id) jobs)) [
  | inl e ↦ rw e nothing
  | inr e ↦ rw e (
      appends (record (new_job i) { rowid = next_rowid jobs })
        (λ j x. ((let l = largest-le jobs j x in omega arith), none-same jobs i.id e j x))
        (refl, refl))
]

pub Added-Sound : (a b : List Job) → Added a b → Sound a → Sound b
Added-Sound a b nothing s = s
Added-Sound a b (appends n h w) s = append-Sound a n h w s

pub Added-Ready : (a b : List Job) (c : Candidate) → Added a b → Ready a c → Ready b c
Added-Ready a b c nothing r = r
Added-Ready a b c (appends n h w) r = append-Ready a n h w c r
