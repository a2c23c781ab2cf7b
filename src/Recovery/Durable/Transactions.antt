-- ===== src/Recovery/Durable/Transactions.antt =====
-- What callers of a durable store rely on: commits are atomic, retries are harmless, and of two
-- writers that read the same revision one is told.
use kernis.Base.{
  ℕ, ◌≤◌, ◌≡◌, refl, ap, ◌∙◌, subst, true, false, none, some, List, Outcome, ok, err, fault, Fault,
  arith, Bool-cases, Option-cases, inl, inr, if◌then◌else◌, ==_iff, ==_refl, list_eq,
}
use kernis.Core.{id_ord}
use kernis.BTree.Map
use kernis.BTree.Map.{Map}
use kernis.Recovery.Durable.Facts.{
  RunId, DurableMutation, StoreRevision, IdempotencyKey, CommitRequest, CommitResult, StoreError,
  revision_conflict,
}
use kernis.Recovery.Durable.Same.{key_ord, same_iff, mutation_eq}
use kernis.Recovery.Durable.State.{DurableRunState, is_empty}
use kernis.Recovery.Durable.Store.{InMemoryDurableStore, load_run, commit, commit_to}
use kernis.Recovery.Durable.Commit.{commit_to-Commits}
use kernis.Recovery.Durable.Accepts.{
  IsReplay, IsAppendable, IsKnown, IsAppended, Accepts, Commits-Accepts, Commits-refused,
  Commits-justified, Commits-ne-fault,
}
use kernis.Recovery.Durable.Calls.{Call, run, run-Advances}

module _ (encode : IdempotencyKey → List DurableMutation → StoreRevision → List ℕ) where
  pub record IsTransaction (request : CommitRequest) (before : InMemoryDurableStore)
      (result : Outcome StoreError CommitResult) (after : InMemoryDurableStore) : Type 0 where
    pub no_fault : (f : Fault) → result ≡ fault f → ⊥
    pub refused : (e : StoreError) → result ≡ err e → after ≡ before
    -- A commit is refused only where its run is missing, it has no mutations, or they can neither be
    -- made nor were made under its key.
    pub justified :
        (e : StoreError)
        → result ≡ err e
        → (s : DurableRunState) → Map.get before.runs request.run_id ≡ some s
        → is_empty request.mutations ≡ false
        → (¬ IsAppendable request s) × (¬ IsKnown request s)
    pub others :
        (r : RunId) → (request.run_id ≡ r → ⊥) → Map.get after.runs r ≡ Map.get before.runs r
    pub accepted :
        (done : CommitResult)
        → result ≡ ok done
        → (s : DurableRunState) × (next : DurableRunState) × (Map.get before.runs request.run_id
            ≡ some s)
          × (Map.get after.runs request.run_id ≡ some next)
          × Accepts encode request s done next

  -- A run that is written back as it was.
  same_run :
      (store : InMemoryDurableStore) (r : RunId) (s next : DurableRunState)
      → Map.get store.runs r ≡ some s
      → next ≡ s
      → record { runs = Map.update store.runs r (λ _. next) } ≡ store
  same_run store r s next h e =
      ap (λ m. record { runs = m }) (Map.update_id store.runs r (λ _. next) s h e)

  pub commit-present :
      (request : CommitRequest) (store : InMemoryDurableStore) (s : DurableRunState)
      → is_empty request.mutations ≡ false
      → Map.get store.runs request.run_id ≡ some s
      → commit encode request store ≡ (
        (commit_to encode request s).0,
        record {
          runs = Map.update store.runs request.run_id (λ _. (commit_to encode request s).1);
        },
      )
  unfolding commit
  commit-present request store s n h = ground arith

  -- A commit is atomic. It never panics. Where it is refused, the store is as it was, and its run is
  -- missing, it has no mutations, or these can neither be made nor were made under its key. It writes
  -- no run but its own. Where it is accepted, either its key was committed before with the same
  -- mutations, and the run is as it was, or the key is new, the run was at the expected revision,
  -- every mutation is a step of the relation `Step`, all of them in their order, from the facts before
  -- to those after, the revision is one more, the ledger has one entry more, of these mutations with
  -- their key, revision and binding, and the index of keys has this key more and is else the same.
  pub commit-IsTransaction :
      (request : CommitRequest) (store : InMemoryDurableStore)
      → IsTransaction request store (commit encode request store).0 (commit encode request store).1
  unfolding commit
  commit-IsTransaction request store = elim (Bool-cases (is_empty request.mutations)) [
    | inl k ↦ rw k (record {
      no_fault = λ f h. cc;
      refused = λ e h. refl;
      justified = λ e h s there n. cc;
      others = λ r h. refl;
      accepted = λ done h. cc;
    })
    | inr k ↦ elim (Option-cases (Map.get store.runs request.run_id)) [
      | inl l ↦
          rw (k, l)
            (record {
              no_fault = λ f h. cc;
              refused = λ e h. refl;
              justified = λ e h s there n. cc;
              others = λ r h. refl;
              accepted = λ done h. cc;
            })
      | inr (s, l) ↦
          let next = (commit_to encode request s).1 in
          let how = commit_to-Commits encode request s in
          let write = Map.get-update store.runs request.run_id (λ _. next) in
          rw (k, l)
            (record {
              no_fault = λ f h. Commits-ne-fault encode request s _ next how f h;
              justified = λ e h t there n.
                  let same : s ≡ t = ground arith in
                  subst (λ b. (¬ IsAppendable request b) × (¬ IsKnown request b)) same
                    (Commits-justified encode request s _ next how e h);
              refused = λ e h.
                  same_run store request.run_id s next l
                    (Commits-refused encode request s _ next how e h);
              others = λ r h. ground (arith, write r, ==_iff request.run_id r);
              accepted = λ done h. (
                s,
                next,
                l,
                ground (arith, write request.run_id, ==_refl request.run_id),
                Commits-Accepts encode request s _ next how done h,
              );
            })
    ]
  ]

  Accepts-key :
      (request : CommitRequest) (s next : DurableRunState) (done : CommitResult)
      → Accepts encode request s done next
      → (revision : StoreRevision) × (Map.get next.idempotency request.idempotency_key
          ≡ some (request.mutations, revision))
        × (next.revision ≡ done.revision)
  Accepts-key request s next done h = elim (Bool-cases done.replayed) [
    | inl e ↦
        let replay : IsReplay request done s next =
          subst
            (λ b. if b then IsReplay request done s next else IsAppended encode request done s next)
            e h in
        (
          replay.known.0,
          ground (arith, replay.known.1, replay.unchanged),
          ground (arith, replay.unchanged, replay.revision),
        )
    | inr e ↦
        let new : IsAppended encode request done s next =
          subst
            (λ b. if b then IsReplay request done s next else IsAppended encode request done s next)
            e h in
        (
          done.revision,
          ground (arith, new.keys request.idempotency_key, ==_refl request.idempotency_key),
          new.reached,
        )
  ]

  commit_to-replay :
      (request : CommitRequest) (s : DurableRunState) (revision : StoreRevision)
      → Map.get s.idempotency request.idempotency_key ≡ some (request.mutations, revision)
      → commit_to encode request s ≡ (ok (record { revision = s.revision; replayed = true }), s)
  unfolding commit_to
  commit_to-replay request s revision h =
      ground (arith, same_iff request.mutations request.mutations)

  commit-ok-mutations :
      (request : CommitRequest) (store : InMemoryDurableStore) (done : CommitResult)
      → (commit encode request store).0 ≡ ok done
      → is_empty request.mutations ≡ false
  unfolding commit
  commit-ok-mutations request store done h = ground arith

  -- A retry is harmless: once a commit was accepted, the same request is accepted again after any
  -- further calls, as a replay that leaves the store as it is.
  pub commit_retry :
      (request : CommitRequest) (store : InMemoryDurableStore) (done : CommitResult)
      (cs : List Call)
      → (commit encode request store).0 ≡ ok done
      → let later = run encode cs (commit encode request store).1 in
        (s : DurableRunState) × (load_run later request.run_id ≡ ok s)
        × (done.revision ≤ s.revision)
        × (commit encode request later
            ≡ (ok (record { revision = s.revision; replayed = true }), later))
  unfolding load_run
  commit_retry request store done cs h =
      let (before, now, e, f, accepted) = (commit-IsTransaction request store).accepted done h in
      let (revision, key, here) = Accepts-key request before now done accepted in
      let after = (commit encode request store).1 in
      let (s, g, advance) = run-Advances encode cs after request.run_id now f in
      let later = run encode cs after in
      let again =
        commit_to-replay request s revision (advance.keys request.idempotency_key _ key) in
      (
        s,
        ground arith,
        ground (arith, advance.forward),
        commit-present request later s (commit-ok-mutations request store done h) g
            ∙ rw again (
                ap (λ l. (ok (record { revision = s.revision; replayed = true }), l))
                  (same_run later request.run_id s s g refl)),
      )

  -- Of two writers that read the same revision of a run, the one that comes second, with a key and
  -- mutations of its own, is refused with the revision that the first one made, and writes nothing.
  pub commit_race :
      (first second : CommitRequest) (store : InMemoryDurableStore) (done : CommitResult)
      (s : DurableRunState)
      → (commit encode first store).0 ≡ ok done
      → done.replayed ≡ false
      → Map.get store.runs first.run_id ≡ some s
      → second.run_id ≡ first.run_id
      → second.expected_revision ≡ first.expected_revision
      → (first.idempotency_key ≡ second.idempotency_key → ⊥)
      → Map.get s.idempotency second.idempotency_key ≡ none
      → is_empty second.mutations ≡ false
      → let after = (commit encode first store).1 in
        commit encode second after
        ≡ (err (revision_conflict second.expected_revision done.revision), after)
  unfolding commit_to
  commit_race first second store done s h e f run_id expected keys fresh n =
      let (before, now, g, k, accepted) = (commit-IsTransaction first store).accepted done h in
      let new : IsAppended encode first done before now =
        subst
          (λ b.
            if b then IsReplay first done before now else IsAppended encode first done before now)
          e accepted in
      let after = (commit encode first store).1 in
      let stale : commit_to encode second now
          ≡ (err (revision_conflict second.expected_revision done.revision), now) =
        ground (
          arith,
          new.expected,
          new.revision,
          new.reached,
          new.keys second.idempotency_key,
          ==_iff first.idempotency_key second.idempotency_key,
        ) in
      commit-present second after now n (rw run_id k)
      ∙ rw stale (
          ap (λ l. (err (revision_conflict second.expected_revision done.revision), l))
            (same_run after second.run_id now now (rw run_id k) refl))
