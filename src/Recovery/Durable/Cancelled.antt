-- ===== src/Recovery/Durable/Cancelled.antt =====
-- A task that was cancelled before its dispatch is never dispatched.
use kernis.Base.{
  ℕ, ◌≡◌, subst, true, some, List, [], ◌∷◌, Outcome, ok, >>=-eq-ok, arith, Bool-cases, inl, inr,
  ◌==◌, ==_iff,
}
use kernis.Core.{TextId, id_ord}
use kernis.BTree.Map
use kernis.BTree.Map.{Map}
use kernis.Recovery.Model.{AttemptId, DispatchRecord}
use kernis.Recovery.Durable.Facts.{
  RunId, AttemptAdmission, DurableMutation, StoreRevision, IdempotencyKey, CommitRequest,
  CommitResult, StoreError,
}
use kernis.Recovery.Durable.State.{DurableRunState, is_cancelled, new, is_empty}
use kernis.Recovery.Durable.Step.{Step}
use kernis.Recovery.Durable.Apply.{apply_mutation}
use kernis.Recovery.Durable.Ledger.{apply_all, record_commit}
use kernis.Recovery.Durable.Sound.{apply_mutation-Step}
use kernis.Recovery.Durable.Keeps.{Keeps, Step-Keeps, Keeps-contains}
use kernis.Recovery.Durable.Consistent.{IsConsistent, Step-IsConsistent}
use kernis.Recovery.Durable.Books.{apply_all-Applies}
use kernis.Recovery.Durable.Index
use kernis.Recovery.Durable.Store.{
  InMemoryDurableStore, new_store, create_run, load_run, commit, commit_to,
}
use kernis.Recovery.Durable.Commit
use kernis.Recovery.Durable.Commit.{Commits, commit_to-Commits}
use kernis.Recovery.Durable.Transactions.{commit-IsTransaction}
use kernis.Recovery.Durable.Calls.{
  Call, call_create, call_commit, all_keyed, perform, run, IsStore, perform-IsStore,
  run-IsStore_from, new_store-IsStore, perform-Advances, run-Advances,
}

-- Every dispatch of an attempt of the task was there before.
abbrev pub NoneDispatched : TextId → DurableRunState → DurableRunState → Type 0
NoneDispatched t s next =
    (a : AttemptId) (d : DispatchRecord) (x : AttemptAdmission)
    → Map.get next.dispatches a ≡ some d
    → Map.get next.admissions a ≡ some x
    → x.task_id ≡ t
    → Map.get s.dispatches a ≡ some d

NoneDispatched-trans :
    (t : TextId) (s mid next : DurableRunState)
    → IsConsistent mid
    → Keeps mid next
    → NoneDispatched t s mid
    → NoneDispatched t mid next
    → NoneDispatched t s next
NoneDispatched-trans t s mid next h k p q a d x e f g =
    let old = q a d x e f g in
    let p' = h.dispatch_admitted a d old in
    let key : d.attempt_id ≡ a =
      Index.IsIndexed-key (λ y. y.attempt_id) mid.dispatch_history mid.dispatches h.dispatches a d
        old in
    let there : Map.get mid.admissions a ≡ some p'.admission =
      subst (λ b. Map.get mid.admissions b ≡ some p'.admission) key p'.admitted in
    let kept = k.admissions a p'.admission there in p a d x old (ground arith) g

Step-NoneDispatched :
    {s : DurableRunState} (t : TextId) (m : DurableMutation) (next : DurableRunState)
    → Step s m next
    → is_cancelled s t ≡ true
    → NoneDispatched t s next
unfolding is_cancelled
Step-NoneDispatched t _ _ (Step.identified identity h) c a d x e f g = e
Step-NoneDispatched t _ _ (Step.admitted y h k) c a d x e f g = e
Step-NoneDispatched t _ _ (Step.intent_kept i h) c a d x e f g = e
Step-NoneDispatched t _ _ (Step.intended i h k) c a d x e f g = e
Step-NoneDispatched t _ _ (Step.cancellation_kept y h k) c a d x e f g = e
Step-NoneDispatched t _ _ (Step.cancelled y h k op l) c a d x e f g = e
Step-NoneDispatched {s} t _ _ (Step.dispatched y h k l) c a d x e f g =
    ground (arith, h.admitted, Map.get-insert s.dispatches y.attempt_id y a, ==_iff y.attempt_id a)
Step-NoneDispatched t _ _ (Step.outcome_kept o existing h k l) c a d x e f g = e
Step-NoneDispatched t _ _ (Step.settled o h k) c a d x e f g = e
Step-NoneDispatched t _ _ (Step.completion_kept y h k l) c a d x e f g = e
Step-NoneDispatched t _ _ (Step.completed y h k l) c a d x e f g = e

pub apply_all-NoneDispatched :
    (t : TextId) (s : DurableRunState) (ms : List DurableMutation) (next : DurableRunState)
    → IsConsistent s
    → is_cancelled s t ≡ true
    → apply_all s ms ≡ ok next
    → NoneDispatched t s next
unfolding apply_all is_cancelled
apply_all-NoneDispatched t s [] next h c e =
    let same : s ≡ next = ground arith in subst (λ n. NoneDispatched t s n) same (λ a d x e _ _. e)
apply_all-NoneDispatched t s (m ∷ ms) next h c e =
    let (mid, p, q) = >>=-eq-ok (apply_mutation s m) (λ n. apply_all n ms) e in
    let step = apply_mutation-Step s m mid p in
    let keeps = Step-Keeps m mid step in
    let consistent = Step-IsConsistent s m mid step h in
    let cancelled =
      Keeps-contains keeps s.cancellations mid.cancellations keeps.cancellations t c in
    NoneDispatched-trans t s mid next consistent (apply_all-Applies mid ms next q).keeps
      (Step-NoneDispatched t m mid step c)
      (apply_all-NoneDispatched t mid ms next consistent cancelled q)

module _ (encode : IdempotencyKey → List DurableMutation → StoreRevision → List ℕ) where
  Commits-NoneDispatched :
      (t : TextId) (request : CommitRequest) (s : DurableRunState)
      (result : Outcome StoreError CommitResult) (next : DurableRunState)
      → IsConsistent s
      → is_cancelled s t ≡ true
      → Commits encode request s result next
      → NoneDispatched t s next
  unfolding record_commit
  Commits-NoneDispatched t request s _ _ h c (Commit.replayed revision k) a d x e _ _ = e
  Commits-NoneDispatched t request s _ _ h c (Commit.reused ms revision k l) a d x e _ _ = e
  Commits-NoneDispatched t request s _ _ h c (Commit.stale k l) a d x e _ _ = e
  Commits-NoneDispatched t request s _ _ h c (Commit.exhausted k l m) a d x e _ _ = e
  Commits-NoneDispatched t request s _ _ h c (Commit.refused y k l m n) a d x e _ _ = e
  Commits-NoneDispatched t request s _ _ h c (Commit.committed candidate k l m n) a d x e f g =
      apply_all-NoneDispatched t s request.mutations candidate h c n a d x e f g

  perform-NoneDispatched :
      (t : TextId) (call : Call) (store : InMemoryDurableStore) (r : RunId)
      (s next : DurableRunState)
      → IsStore encode store
      → Map.get store.runs r ≡ some s
      → Map.get (perform encode call store).runs r ≡ some next
      → is_cancelled s t ≡ true
      → NoneDispatched t s next
  unfolding perform create_run commit
  perform-NoneDispatched t (call_create run_id) store r s next h e f c =
      let same : s ≡ next =
        ground (arith, Map.get-insert store.runs run_id (new run_id) r, ==_iff run_id r) in
      subst (λ n. NoneDispatched t s n) same (λ a d x e _ _. e)
  perform-NoneDispatched t (call_commit request) store r s next h e f c =
      elim (Bool-cases (request.run_id == r)) [
        | inr k ↦
            let same : s ≡ next = ground (
              arith,
              (commit-IsTransaction encode request store).others r
                  (λ q. ground (arith, ==_iff request.run_id r)),
            ) in
            subst (λ n. NoneDispatched t s n) same (λ a d x e _ _. e)
        | inl k ↦ elim (Bool-cases (is_empty request.mutations)) [
          | inl l ↦
              let same : s ≡ next = ground arith in
              subst (λ n. NoneDispatched t s n) same (λ a d x e _ _. e)
          | inr l ↦
              let own : Map.get store.runs request.run_id ≡ some s =
                ground (arith, ==_iff request.run_id r) in
              let after = (commit_to encode request s).1 in
              let same : after ≡ next =
                ground (arith, own, Map.get-update store.runs request.run_id (λ _. after) r) in
              subst (λ n. NoneDispatched t s n) same
                (Commits-NoneDispatched t request s _ after (h r s e).recorded.consistent c
                  (commit_to-Commits encode request s))
        ]
      ]

  run-NoneDispatched_from :
      (t : TextId) (cs : List Call) (store : InMemoryDurableStore) (r : RunId)
      (s next : DurableRunState)
      → all_keyed cs ≡ true
      → IsStore encode store
      → Map.get store.runs r ≡ some s
      → Map.get (run encode cs store).runs r ≡ some next
      → is_cancelled s t ≡ true
      → NoneDispatched t s next
  unfolding run is_cancelled
  run-NoneDispatched_from t [] store r s next k h e f c =
      let same : s ≡ next = ground arith in
      subst (λ n. NoneDispatched t s n) same (λ a d x e _ _. e)
  run-NoneDispatched_from t (call ∷ cs) store r s next k h e f c =
      let (mid, g, one) = perform-Advances encode call store r s e in
      let (last, l, rest) = run-Advances encode cs (perform encode call store) r mid g in
      let same : last ≡ next = ground arith in
      let h' = perform-IsStore encode call store (ground arith) h in
      let cancelled =
        Keeps-contains one.keeps s.cancellations mid.cancellations one.keeps.cancellations t c in
      NoneDispatched-trans t s mid next (h' r mid g).recorded.consistent
        (subst (λ n. Keeps mid n) same rest.keeps)
        (perform-NoneDispatched t call store r s mid h e g c)
        (run-NoneDispatched_from t cs (perform encode call store) r mid next (ground arith) h' g f
          cancelled)

  -- Cancellation before dispatch is final: once a task of a run is cancelled, in a store that any
  -- calls made, no further calls dispatch an attempt that was admitted for it.
  pub cancelled-NoneDispatched :
      (t : TextId) (before later : List Call) (r : RunId) (s next : DurableRunState)
      → all_keyed before ≡ true
      → all_keyed later ≡ true
      → load_run (run encode before new_store) r ≡ ok s
      → load_run (run encode later (run encode before new_store)) r ≡ ok next
      → is_cancelled s t ≡ true
      → NoneDispatched t s next
  unfolding load_run
  cancelled-NoneDispatched t before later r s next k l e f c =
      let store = run encode before new_store in
      run-NoneDispatched_from t later store r s next l
        (run-IsStore_from encode before new_store k (new_store-IsStore encode)) (ground arith)
        (ground arith) c
