-- ===== src/Recovery/Durable/Recorded.antt =====
-- The ledger of a run replays to its facts, and every commit keeps it so.
use kernis.Base.{
  ℕ, ◌+◌, ◌<◌, ◌≤◌, ◌≡◌, refl, sym, ap, ◌∙◌, false, none, some, List, [], ◌∷◌, ◌++◌, Outcome, ok,
  err, arith, Bool-cases, inl, inr, if◌then◌else◌, append_assoc, append-nil, length, length-append,
  ltb,
}
use kernis.Core.{id_ord, is_blank, u64_max, checked_succ}
use kernis.BTree.Map
use kernis.BTree.Map.{Map}
use kernis.Recovery.Durable.Facts.{
  RunId, DurableMutation, StoreRevision, initial_revision, IdempotencyKey, CommitRequest,
  CommitResult, StoreError, CommitLedgerEntry, data_corruption, exhausted_sequence,
}
use kernis.Recovery.Durable.Same.{key_ord}
use kernis.Recovery.Durable.State.{DurableRunState, new, is_empty}
use kernis.Recovery.Durable.Ledger.{
  apply_all, record_commit, replay_entry, replay_entries, replay_commit_ledger, entry_of,
}
use kernis.Recovery.Durable.Snapshot.{any_blank, blank_identity}
use kernis.Recovery.Durable.Store.{commit_to}
use kernis.Recovery.Durable.Consistent.{IsConsistent, new-IsConsistent}
use kernis.Recovery.Durable.Books.{
  Books, apply_all-Applies, apply_all-with_books, with_books-IsConsistent,
}
use kernis.Recovery.Durable.Commit
use kernis.Recovery.Durable.Commit.{Commits, commit_to-Commits}

module _ (encode : IdempotencyKey → List DurableMutation → StoreRevision → List ℕ) where
  pub record IsRecorded (s : DurableRunState) : Type 0 where
    pub consistent : IsConsistent s
    -- One entry of the ledger for each revision.
    pub counted : length s.commit_ledger ≡ s.revision
    pub bounded : s.revision ≤ u64_max
    pub keyed : any_blank (Map.keys s.idempotency) ≡ false
    pub named : blank_identity s.workflow_replay_identity ≡ false
    -- A replay of the ledger arrives at the state.
    pub replays :
        s.revision < u64_max
        → (rest : List CommitLedgerEntry)
        → replay_entries encode (new s.run_id) (initial_revision + 1) (s.commit_ledger ++ rest)
          ≡ replay_entries encode s (s.revision + 1) rest
    -- After the last revision, it does not.
    pub exhausts :
        s.revision ≡ u64_max
        → replay_entries encode (new s.run_id) (initial_revision + 1) s.commit_ledger
          ≡ err (data_corruption exhausted_sequence)

  -- The entry that a commit adds to the ledger replays to what the commit did.
  replay_entry_of :
      (s candidate : DurableRunState) (key : IdempotencyKey) (ms : List DurableMutation)
      → is_blank key.value ≡ false
      → is_empty ms ≡ false
      → Map.get s.idempotency key ≡ none
      → apply_all s ms ≡ ok candidate
      → replay_entry encode s (s.revision + 1) (entry_of encode key ms (s.revision + 1))
        ≡ ok (record_commit encode candidate key ms (s.revision + 1))
  unfolding replay_entry record_commit
  replay_entry_of s candidate key ms b n k h =
      let indexed : Books = record {
        revision = s.revision;
        commit_ledger = s.commit_ledger;
        idempotency = Map.insert s.idempotency key (ms, s.revision + 1);
      } in
      let replayed = apply_all-with_books s indexed ms candidate h in
      let same = (apply_all-Applies s ms candidate h).same_books in
      let same_ledger : candidate.commit_ledger ≡ s.commit_ledger =
        ap (λ x. x.commit_ledger) same in
      let same_index : candidate.idempotency ≡ s.idempotency = ap (λ x. x.idempotency) same in
      ground (arith, replayed, same_ledger, same_index)

  insert-any_blank :
      {V : Type 0} (m : Map IdempotencyKey V) (k : IdempotencyKey) (v : V)
      → is_blank k.value ≡ false
      → any_blank (Map.keys m) ≡ false
      → any_blank (Map.keys (Map.insert m k v)) ≡ false
  unfolding Map.insert
  insert-any_blank [] k v b h = ground arith
  insert-any_blank ((j, w) ∷ m) k v b h = ground (arith, insert-any_blank m k v)

  -- A replay of the ledger with the entry of a commit.
  replay_entries-record_commit :
      (s candidate : DurableRunState) (key : IdempotencyKey) (ms : List DurableMutation)
      (rest : List CommitLedgerEntry)
      → IsRecorded s
      → is_blank key.value ≡ false
      → is_empty ms ≡ false
      → Map.get s.idempotency key ≡ none
      → s.revision < u64_max
      → apply_all s ms ≡ ok candidate
      → replay_entries encode
          (new s.run_id)
          (initial_revision + 1)
          ((s.commit_ledger ++ entry_of encode key ms (s.revision + 1) ∷ []) ++ rest)
        ≡ elim (checked_succ (s.revision + 1)) [
          | none ↦ err (data_corruption exhausted_sequence)
          | some following ↦
              replay_entries encode
                (record_commit encode candidate key ms (s.revision + 1))
                following
                rest
        ]
  unfolding replay_entries
  replay_entries-record_commit s candidate key ms rest h b n k l a =
      let entry = entry_of encode key ms (s.revision + 1) in
      let old = h.replays l (entry ∷ rest) in
      rw (append_assoc s.commit_ledger (entry ∷ []) rest)
        (old ∙ rw (replay_entry_of s candidate key ms b n k a) refl)

  pub record_commit-IsRecorded :
      (s candidate : DurableRunState) (key : IdempotencyKey) (ms : List DurableMutation)
      → IsRecorded s
      → is_blank key.value ≡ false
      → is_empty ms ≡ false
      → Map.get s.idempotency key ≡ none
      → s.revision < u64_max
      → apply_all s ms ≡ ok candidate
      → IsRecorded (record_commit encode candidate key ms (s.revision + 1))
  unfolding record_commit
  record_commit-IsRecorded s candidate key ms h b n k l a =
      let done = apply_all-Applies s ms candidate a in
      let entry = entry_of encode key ms (s.revision + 1) in
      let same_ledger : candidate.commit_ledger ≡ s.commit_ledger =
        ap (λ x. x.commit_ledger) done.same_books in
      let same_index : candidate.idempotency ≡ s.idempotency =
        ap (λ x. x.idempotency) done.same_books in
      let left : (rest : List CommitLedgerEntry)
          → replay_entries encode (new candidate.run_id) (initial_revision + 1)
              ((candidate.commit_ledger ++ entry ∷ []) ++ rest)
            ≡ replay_entries encode (new s.run_id) (initial_revision + 1)
                ((s.commit_ledger ++ entry ∷ []) ++ rest) =
        λ rest. rw (done.keeps.run_id, same_ledger) refl in
      let replay = λ (rest : List CommitLedgerEntry).
        left rest ∙ replay_entries-record_commit s candidate key ms rest h b n k l a in
      record {
        consistent = with_books-IsConsistent candidate _ (done.consistent h.consistent);
        counted =
            ground (arith, same_ledger, length-append s.commit_ledger (entry ∷ []), h.counted);
        bounded = ground (arith);
        keyed = rw same_index (insert-any_blank s.idempotency key (ms, s.revision + 1) b h.keyed);
        named = done.named h.named;
        replays = λ less rest.
            let following : checked_succ (s.revision + 1) ≡ some (s.revision + 1 + 1) =
              ground arith in
            replay rest ∙ rw following refl;
        exhausts = λ last.
            let none_left : checked_succ (s.revision + 1) ≡ none = ground arith in
            ap (replay_entries encode (new candidate.run_id) (initial_revision + 1))
              (sym (append-nil (candidate.commit_ledger ++ entry ∷ [])))
            ∙ replay []
            ∙ rw none_left refl;
      }

  pub new-IsRecorded : (run_id : RunId) → IsRecorded (new run_id)
  new-IsRecorded run_id = record {
    consistent = new-IsConsistent run_id;
    counted = refl;
    bounded = ground arith;
    keyed = refl;
    named = refl;
    replays = λ less rest. refl;
    exhausts = λ last. ground arith;
  }

  Commits-IsRecorded :
      (request : CommitRequest) (s : DurableRunState) (result : Outcome StoreError CommitResult)
      (next : DurableRunState)
      → is_blank request.idempotency_key.value ≡ false
      → is_empty request.mutations ≡ false
      → IsRecorded s
      → Commits encode request s result next
      → IsRecorded next
  Commits-IsRecorded request s _ _ b n h (Commit.replayed revision k) = h
  Commits-IsRecorded request s _ _ b n h (Commit.reused ms revision k l) = h
  Commits-IsRecorded request s _ _ b n h (Commit.stale k l) = h
  Commits-IsRecorded request s _ _ b n h (Commit.exhausted k l m) = h
  Commits-IsRecorded request s _ _ b n h (Commit.refused e k l m a) = h
  Commits-IsRecorded request s _ _ b n h (Commit.committed candidate k l m a) =
      record_commit-IsRecorded s candidate request.idempotency_key request.mutations h b n k m a

  pub commit_to-IsRecorded :
      (request : CommitRequest) (s : DurableRunState)
      → is_blank request.idempotency_key.value ≡ false
      → is_empty request.mutations ≡ false
      → IsRecorded s
      → IsRecorded (commit_to encode request s).1
  commit_to-IsRecorded request s b n h =
      Commits-IsRecorded request s _ _ b n h (commit_to-Commits encode request s)

  -- The replay of a whole ledger.
  pub replay_commit_ledger-IsRecorded :
      (s : DurableRunState)
      → IsRecorded s
      → replay_commit_ledger encode s.run_id s.commit_ledger
        ≡ (if ltb s.revision u64_max then ok s else err (data_corruption exhausted_sequence))
  unfolding replay_commit_ledger replay_entries
  replay_commit_ledger-IsRecorded s h = elim (Bool-cases (ltb s.revision u64_max)) [
    | inl e ↦
        let whole : replay_entries encode (new s.run_id) (initial_revision + 1) s.commit_ledger
            ≡ replay_entries encode s (s.revision + 1) [] =
          ap (replay_entries encode (new s.run_id) (initial_revision + 1))
            (sym (append-nil s.commit_ledger))
          ∙ h.replays (ground arith) [] in
        ground (arith, whole)
    | inr e ↦ ground (arith, h.exhausts, h.bounded)
  ]
