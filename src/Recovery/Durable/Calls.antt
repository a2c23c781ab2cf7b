-- ===== src/Recovery/Durable/Calls.antt =====
-- Sequences of calls of a durable store.
use kernis.Base.{
  ℕ, ◌≡◌, ◌∙◌, subst, Bool, true, false, not, ◌&&◌, some, List, [], ◌∷◌, ok, arith, Bool-cases,
  Option-cases, inl, inr, ◌==◌, ==_iff,
}
use kernis.Core.{id_ord, is_blank}
use kernis.BTree.Map
use kernis.BTree.Map.{Map}
use kernis.Recovery.Durable.Facts.{
  RunId, DurableMutation, StoreRevision, IdempotencyKey, CommitRequest,
}
use kernis.Recovery.Durable.Same.{key_ord}
use kernis.Recovery.Durable.State.{DurableRunState, new, is_empty}
use kernis.Recovery.Durable.Store.{
  InMemoryDurableStore, new_store, create_run, load_run, commit, commit_to,
}
use kernis.Recovery.Durable.Advance.{Advances, Advances-refl, Advances-trans, commit_to-Advances}
use kernis.Recovery.Durable.Recorded.{IsRecorded, new-IsRecorded, commit_to-IsRecorded}

-- A call that writes, successful or not.
pub data Call : Type 0 where
  call_create : RunId → Call
  call_commit : CommitRequest → Call

-- The keys that `IdempotencyKey::new` makes are not blank.
abbrev pub is_keyed : Call → Bool
is_keyed (call_create run_id) = true
is_keyed (call_commit request) = not (is_blank request.idempotency_key.value)

abbrev pub all_keyed : List Call → Bool
all_keyed [] = true
all_keyed (c ∷ cs) = is_keyed c && all_keyed cs

module _ (encode : IdempotencyKey → List DurableMutation → StoreRevision → List ℕ) where
  unfoldable pub perform : Call → InMemoryDurableStore → InMemoryDurableStore
  perform (call_create run_id) store = (create_run run_id store).1
  perform (call_commit request) store = (commit encode request store).1

  unfoldable pub run : List Call → InMemoryDurableStore → InMemoryDurableStore
  run [] store = store
  run (c ∷ cs) store = run cs (perform c store)

  -- Each run is stored under its name, with a ledger that replays to its facts.
  pub record IsStored (r : RunId) (s : DurableRunState) : Type 0 where
    pub name : s.run_id ≡ r
    pub recorded : IsRecorded encode s

  abbrev pub IsStore : InMemoryDurableStore → Type 0
  IsStore store = (r : RunId) (s : DurableRunState) → Map.get store.runs r ≡ some s → IsStored r s

  create_run-IsStore :
      (run_id : RunId) (store : InMemoryDurableStore)
      → IsStore store
      → IsStore (create_run run_id store).1
  unfolding create_run
  create_run-IsStore run_id store h r s e = elim (Bool-cases (Map.contains_key store.runs run_id)) [
    | inl k ↦ h r s (ground arith)
    | inr k ↦ elim (Bool-cases (run_id == r)) [
      | inl l ↦
          let same : new run_id ≡ s =
            ground (arith, Map.get-insert store.runs run_id (new run_id) r) in
          subst (IsStored r) same
            (record { name = (==_iff run_id r).0 l; recorded = new-IsRecorded encode run_id })
      | inr l ↦ h r s (ground (arith, Map.get-insert store.runs run_id (new run_id) r))
    ]
  ]

  commit-IsStore :
      (request : CommitRequest) (store : InMemoryDurableStore)
      → is_blank request.idempotency_key.value ≡ false
      → IsStore store
      → IsStore (commit encode request store).1
  unfolding commit
  commit-IsStore request store b h r s e = elim (Bool-cases (is_empty request.mutations)) [
    | inl k ↦ h r s (ground arith)
    | inr k ↦ elim (Option-cases (Map.get store.runs request.run_id)) [
      | inl l ↦ h r s (ground arith)
      | inr (before, l) ↦
          let after = (commit_to encode request before).1 in
          let write = Map.get-update store.runs request.run_id (λ _. after) r in
          elim (Bool-cases (request.run_id == r)) [
            | inl m ↦
                let same : after ≡ s = ground (arith, write, ==_iff request.run_id r) in
                let old = h request.run_id before l in
                subst (IsStored r) same (record {
                  name =
                      (commit_to-Advances encode request before).keeps.run_id
                      ∙ old.name
                      ∙ (==_iff request.run_id r).0 m;
                  recorded = commit_to-IsRecorded encode request before b k old.recorded;
                })
            | inr m ↦ h r s (ground (arith, write))
          ]
    ]
  ]

  pub perform-IsStore :
      (c : Call) (store : InMemoryDurableStore)
      → is_keyed c ≡ true
      → IsStore store
      → IsStore (perform c store)
  unfolding perform
  perform-IsStore (call_create run_id) store k h = create_run-IsStore run_id store h
  perform-IsStore (call_commit request) store k h = commit-IsStore request store (ground arith) h

  pub run-IsStore_from :
      (cs : List Call) (store : InMemoryDurableStore)
      → all_keyed cs ≡ true
      → IsStore store
      → IsStore (run cs store)
  unfolding run
  run-IsStore_from [] store k h = h
  run-IsStore_from (c ∷ cs) store k h =
      run-IsStore_from cs (perform c store) (ground arith)
        (perform-IsStore c store (ground arith) h)

  pub new_store-IsStore : IsStore new_store
  unfolding Map.get
  new_store-IsStore r s e = cc

  -- Where no key that callers gave is blank, every run of a store that any calls made, refused ones
  -- included, stands under its own name. Its facts agree: each map holds the facts of its history,
  -- each once; each task has one operation; what is dispatched was admitted for an operation with an
  -- intent, what has an outcome was dispatched, and what is completed is known to have succeeded. The
  -- revision counts the entries of the ledger and fits in 64 bits, no key is blank, and the ledger
  -- replays to the state below the last revision, 2^64 - 1, at which the replay is refused.
  pub load_run-IsStored :
      (cs : List Call) (r : RunId) (s : DurableRunState)
      → all_keyed cs ≡ true
      → load_run (run cs new_store) r ≡ ok s
      → IsStored r s
  unfolding load_run
  load_run-IsStored cs r s k h =
      run-IsStore_from cs new_store k new_store-IsStore r s (ground arith)

  pub perform-Advances :
      (c : Call) (store : InMemoryDurableStore) (r : RunId) (s : DurableRunState)
      → Map.get store.runs r ≡ some s
      → (next : DurableRunState) × (Map.get (perform c store).runs r ≡ some next) × Advances s next
  unfolding perform create_run commit
  perform-Advances (call_create run_id) store r s h = (
    s,
    ground (arith, Map.get-insert store.runs run_id (new run_id) r, ==_iff run_id r),
    Advances-refl s,
  )
  perform-Advances (call_commit request) store r s h =
      elim (Bool-cases (is_empty request.mutations)) [
        | inl k ↦ (s, ground arith, Advances-refl s)
        | inr k ↦ elim (Option-cases (Map.get store.runs request.run_id)) [
          | inl l ↦ (s, ground arith, Advances-refl s)
          | inr (before, l) ↦
              let after = (commit_to encode request before).1 in
              let write = Map.get-update store.runs request.run_id (λ _. after) r in
              elim (Bool-cases (request.run_id == r)) [
                | inl m ↦
                    let same : before ≡ s = ground (arith, ==_iff request.run_id r) in
                    (
                      after,
                      ground (arith, write),
                      subst (λ b. Advances b after) same (commit_to-Advances encode request before),
                    )
                | inr m ↦ (s, ground (arith, write), Advances-refl s)
              ]
        ]
      ]

  -- A run stays in the store, with all that was committed to it.
  pub run-Advances :
      (cs : List Call) (store : InMemoryDurableStore) (r : RunId) (s : DurableRunState)
      → Map.get store.runs r ≡ some s
      → (next : DurableRunState) × (Map.get (run cs store).runs r ≡ some next) × Advances s next
  unfolding run
  run-Advances [] store r s h = (s, h, Advances-refl s)
  run-Advances (c ∷ cs) store r s h =
      let (mid, e, a) = perform-Advances c store r s h in
      let (next, f, b) = run-Advances cs (perform c store) r mid e in (next, f, Advances-trans a b)
