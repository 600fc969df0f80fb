-- ===== src/Routes/Agent/Poll/Renewal.antt =====
-- gateway/src/routes/agent.ts, POST /v1/agent/poll: what the loop over the reported jobs answers.
use nidora_ai_inference.Base.{
  ℕ, ◌≡◌, refl, ap, ◌∙◌, Bool, true, false, not, ◌&&◌, ◌==◌, if◌then◌else◌, if-elim, Option, none,
  some, List, [], ◌∷◌, ◌++◌, map, arith, Str, apply_if, find-update_where, select_where,
}
use mathlib.Core.Option
use nidora_ai_inference.Domain.Types.{Number, Job}
use nidora_ai_inference.Store.Db.{Db, has_id, get, changes, update_jobs}
use nidora_ai_inference.Store.Jobs.{owns, renewed_row, renew_lease}
use nidora_ai_inference.Store.Invariant.{Distinct, update_where-Distinct}
use nidora_ai_inference.Store.Lookup.{one_if, count_where-find}
use nidora_ai_inference.Store.Fencing.{held}
use nidora_ai_inference.Routes.Agent.Poll.{
  InFlightReport, Renewing, str, valid_progress, add_once, dedup_onto, wants_cancel, renew_one,
  renew_given, renew_all,
}

-- The reports that name a job and a lease, none of them empty.
abbrev pair : Option Str → Option Str → List (Str × Str) → List (Str × Str)
pair none lease rest = rest
pair (some id) none rest = rest
pair (some id) (some lease) rest = (id, lease) ∷ rest

unfoldable pub named : List InFlightReport → List (Str × Str)
named [] = []
named (item ∷ items) = pair (str item.job_id) (str item.lease_id) (named items)

abbrev holds : Str → Option Job → Bool
holds lease none = false
holds lease (some j) = held lease j

-- The row of the id is in progress under the lease.
unfoldable pub owned : Db → Str × Str → Bool
owned db (id, lease) = holds lease (get id db)

unfoldable pub flagged : Db → Str → Bool
flagged db id = wants_cancel (get id db)

one_if-holds : (lease : Str) (o : Option Job) → (one_if (held lease) o == 1) ≡ holds lease o
one_if-holds lease none = refl
one_if-holds lease (some j) = ground arith

module _ (id : Str) (c : ℕ) (cs : Str) (expires : ℕ) (progress : Option Number)
    (upstream : Option Str) (db : Db) where
  abbrev hit : Job → Bool
  hit = owns id (c ∷ cs)

  abbrev set : Job → Job
  set = renewed_row expires progress upstream

  abbrev after : Db
  after = (renew_lease id (c ∷ cs) expires progress upstream db).0

  renew_lease-owned :
      Distinct db.jobs
      → (renew_lease id (c ∷ cs) expires progress upstream db).1 ≡ owned db (id, c ∷ cs)
  unfolding renew_lease owned changes get
  renew_lease-owned d =
      ap (λ n. n == 1) (count_where-find id (held (c ∷ cs)) db.jobs d)
      ∙ one_if-holds (c ∷ cs) (get id db)

  get-renew_lease : (k : Str) → get k after ≡ Option.map (apply_if hit set) (get k db)
  unfolding renew_lease get update_jobs
  get-renew_lease k = find-update_where (has_id k) hit set (λ j. refl) db.jobs

  owned-renew_lease : (k lease : Str) → owned after (k, lease) ≡ owned db (k, lease)
  unfolding owned
  owned-renew_lease k lease = ap (holds lease) (get-renew_lease k) ∙ kept (get k db)
    where
      kept : (o : Option Job) → holds lease (Option.map (apply_if hit set) o) ≡ holds lease o
      kept none = refl
      kept (some j) = ground arith

  flagged-renew_lease : (k : Str) → flagged after k ≡ flagged db k
  unfolding flagged
  flagged-renew_lease k = ap wants_cancel (get-renew_lease k) ∙ kept (get k db)
    where
      kept : (o : Option Job) → wants_cancel (Option.map (apply_if hit set) o) ≡ wants_cancel o
      kept none = refl
      kept (some j) = ground arith

  Distinct-renew_lease : Distinct db.jobs → Distinct after.jobs
  unfolding renew_lease update_jobs
  Distinct-renew_lease d = update_where-Distinct hit set (λ j. refl) db.jobs d

-- The table at the start of the loop, as far as the answers go by it.
record Agrees (start db : Db) : Type 0 where
  ids : Distinct db.jobs
  owning : (id lease : Str) → owned db (id, lease) ≡ owned start (id, lease)
  flagging : (id : Str) → flagged db id ≡ flagged start id

-- The answers of the loop to the pairs, behind those that it has already.
pub record Answers (start : Db) (pairs : List (Str × Str)) (r r' : Renewing) : Type 0 where
  pub orphans :
      r'.orphan ≡ r.orphan ++ map (λ p. p.0) (select_where (λ p. not (owned start p)) pairs)
  pub cancels :
      r'.cancel
      ≡ r.cancel ++ map (λ p. p.0) (select_where (λ p. owned start p && flagged start p.0) pairs)
  pub kept :
      r'.still_owned ≡ dedup_onto r.still_owned (map (λ p. p.0) (select_where (owned start) pairs))

append_assoc : (xs : List Str) (x : Str) (ys : List Str) → (xs ++ x ∷ []) ++ ys ≡ xs ++ x ∷ ys
append_assoc [] x ys = refl
append_assoc (z ∷ xs) x ys = ap (◌∷◌ z) (append_assoc xs x ys)

append_nil : (xs : List Str) → xs ≡ xs ++ []
append_nil [] = refl
append_nil (x ∷ xs) = ap (◌∷◌ x) (append_nil xs)

abbrev ids_of : List (Str × Str) → List Str
ids_of = map (λ p. p.0)

push-if :
    (b : Bool) (p : Str × Str) (xs : List Str) (ps : List (Str × Str))
    → (if b then xs ++ p.0 ∷ [] else xs) ++ ids_of ps ≡ xs ++ ids_of (if b then p ∷ ps else ps)
push-if true p xs ps = append_assoc xs p.0 (ids_of ps)
push-if false p xs ps = refl

dedup-if :
    (b : Bool) (p : Str × Str) (seen : List Str) (ps : List (Str × Str))
    → dedup_onto (if b then add_once seen p.0 else seen) (ids_of ps)
      ≡ dedup_onto seen (ids_of (if b then p ∷ ps else ps))
unfolding dedup_onto
dedup-if true p seen ps = refl
dedup-if false p seen ps = refl

-- One round's answers and the rest's.
Answers-cons :
    (start : Db) (p : Str × Str) (pairs : List (Str × Str)) (r r1 r' : Renewing)
    → r1.orphan ≡ (if not (owned start p) then r.orphan ++ p.0 ∷ [] else r.orphan)
    → r1.cancel ≡ (if owned start p && flagged start p.0 then r.cancel ++ p.0 ∷ [] else r.cancel)
    → r1.still_owned ≡ (if owned start p then add_once r.still_owned p.0 else r.still_owned)
    → Answers start pairs r1 r'
    → Answers start (p ∷ pairs) r r'
unfolding select_where
Answers-cons start p pairs r r1 r' o c k a = record {
  orphans =
      a.orphans
      ∙ ap (λ xs. xs ++ ids_of (select_where (λ q. not (owned start q)) pairs)) o
      ∙ push-if (not (owned start p)) p r.orphan (select_where (λ q. not (owned start q)) pairs);
  cancels =
      a.cancels
      ∙ ap (λ xs. xs ++ ids_of (select_where (λ q. owned start q && flagged start q.0) pairs)) c
      ∙ push-if (owned start p && flagged start p.0) p r.cancel
          (select_where (λ q. owned start q && flagged start q.0) pairs);
  kept =
      a.kept
      ∙ ap (λ xs. dedup_onto xs (ids_of (select_where (owned start) pairs))) k
      ∙ dedup-if (owned start p) p r.still_owned (select_where (owned start) pairs);
}

module _ (expires : ℕ) (start : Db) where
  renew_one-Agrees :
      (id : Str) (c : ℕ) (cs : Str) (progress : Option Number) (upstream : Option Str)
      (r : Renewing)
      → Agrees start r.db
      → Agrees start (renew_one expires id (c ∷ cs) progress upstream r).db
  unfolding renew_one
  renew_one-Agrees id c cs progress upstream r a =
      if-elim (λ (r' : Renewing). Agrees start r'.db) _ _ _ (λ e. agrees) (λ e. agrees)
    where
      agrees :
          Agrees start
            (renew_lease id (c ∷ cs) expires (valid_progress progress) (str upstream) r.db).0
      agrees = record {
        ids =
            Distinct-renew_lease id c cs expires (valid_progress progress) (str upstream) r.db
              a.ids;
        owning = λ k lease.
            owned-renew_lease id c cs expires (valid_progress progress) (str upstream) r.db k lease
            ∙ a.owning k lease;
        flagging = λ k.
            flagged-renew_lease id c cs expires (valid_progress progress) (str upstream) r.db k
            ∙ a.flagging k;
      }

  -- The round of a pair answers as the table at the start says.
  module _ (id : Str) (c : ℕ) (cs : Str) (progress : Option Number) (upstream : Option Str)
      (r : Renewing) (a : Agrees start r.db) where
    abbrev next : Renewing
    next = renew_one expires id (c ∷ cs) progress upstream r

    renewed :
        (renew_lease id (c ∷ cs) expires (valid_progress progress) (str upstream) r.db).1
        ≡ owned start (id, c ∷ cs)
    renewed =
        renew_lease-owned id c cs expires (valid_progress progress) (str upstream) r.db a.ids
        ∙ a.owning id (c ∷ cs)

    wanted :
        wants_cancel
          (get id (renew_lease id (c ∷ cs) expires (valid_progress progress) (str upstream) r.db).0)
        ≡ flagged start id
    unfolding flagged
    wanted =
        flagged-renew_lease id c cs expires (valid_progress progress) (str upstream) r.db id
        ∙ a.flagging id

    renew_one-orphan :
        next.orphan ≡ (if not (owned start (id, c ∷ cs)) then r.orphan ++ id ∷ [] else r.orphan)
    unfolding renew_one
    renew_one-orphan = ground (arith, renewed)

    renew_one-cancel :
        next.cancel
        ≡ (if owned start (id, c ∷ cs) && flagged start id then r.cancel ++ id ∷ [] else r.cancel)
    unfolding renew_one
    renew_one-cancel = ground (arith, renewed, wanted)

    renew_one-still_owned :
        next.still_owned
        ≡ (if owned start (id, c ∷ cs) then add_once r.still_owned id else r.still_owned)
    unfolding renew_one
    renew_one-still_owned = ground (arith, renewed)

  answer_given :
      (item : InFlightReport) (job_id lease_id : Option Str) (rest : List (Str × Str))
      (go : Renewing → Renewing)
      → ((r : Renewing) → Agrees start r.db → Answers start rest r (go r))
      → (r : Renewing) → Agrees start r.db
      → Answers start
          (pair (str job_id) (str lease_id) rest)
          r
          (go (renew_given expires item (str job_id) (str lease_id) r))
  unfolding renew_given
  answer_given item none lease_id rest go ih r a = ih r a
  answer_given item (some []) lease_id rest go ih r a = ih r a
  answer_given item (some (x ∷ xs)) none rest go ih r a = ih r a
  answer_given item (some (x ∷ xs)) (some []) rest go ih r a = ih r a
  answer_given item (some (x ∷ xs)) (some (c ∷ cs)) rest go ih r a =
      let id : Str = x ∷ xs in
      let r1 = renew_one expires id (c ∷ cs) item.progress item.upstream_id r in
      Answers-cons start (id, c ∷ cs) rest r r1 (go r1)
        (renew_one-orphan id c cs item.progress item.upstream_id r a)
        (renew_one-cancel id c cs item.progress item.upstream_id r a)
        (renew_one-still_owned id c cs item.progress item.upstream_id r a)
        (ih r1 (renew_one-Agrees id c cs item.progress item.upstream_id r a))

  answer_all :
      (items : List InFlightReport) (r : Renewing)
      → Agrees start r.db
      → Answers start (named items) r (renew_all expires items r)
  unfolding named renew_all select_where dedup_onto
  answer_all [] r a = record {
    orphans = append_nil r.orphan;
    cancels = append_nil r.cancel;
    kept = refl;
  }
  answer_all (item ∷ items) r a =
      answer_given item item.job_id item.lease_id (named items) (renew_all expires items)
        (answer_all items) r a

-- Under distinct ids, for a report of jobs: the loop answers by the table as it was when the loop began,
-- although it writes to it. Of the items that name a job and a lease, those whose job is not in progress
-- under the lease are the orphans, in the order of the report; those whose job is, and has its cancel
-- requested, are to be cancelled; and the jobs that are still owned are the ones in progress under their
-- leases, each once.
pub renew_all-Answers :
    (expires : ℕ) (items : List InFlightReport) (r : Renewing)
    → Distinct r.db.jobs
    → Answers r.db (named items) r (renew_all expires items r)
renew_all-Answers expires items r d =
    answer_all expires r.db items r
      (record { ids = d; owning = λ k lease. refl; flagging = λ k. refl })
