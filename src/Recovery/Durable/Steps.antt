-- ===== src/Recovery/Durable/Steps.antt =====
-- Mutations one after the other, each a step of the run.
use kernis.Base.{◌≡◌, refl, subst, List, [], ◌∷◌, ok, >>=-eq-ok, arith}
use kernis.Recovery.Durable.Facts.{DurableMutation}
use kernis.Recovery.Durable.State.{DurableRunState}
use kernis.Recovery.Durable.Step.{Step}
use kernis.Recovery.Durable.Apply.{apply_mutation}
use kernis.Recovery.Durable.Ledger.{apply_all}
use kernis.Recovery.Durable.Complete.{Step-apply_mutation}
use kernis.Recovery.Durable.Sound.{apply_mutation-Step}

pub data Steps : DurableRunState → List DurableMutation → DurableRunState → Type 0 where
  done : (s : DurableRunState) → Steps s [] s
  step :
      (s mid next : DurableRunState) (m : DurableMutation) (ms : List DurableMutation)
      → Step s m mid
      → Steps mid ms next
      → Steps s (m ∷ ms) next

-- Mutations that are accepted are steps, all of them and in order.
pub apply_all-Steps :
    (s : DurableRunState) (ms : List DurableMutation) (next : DurableRunState)
    → apply_all s ms ≡ ok next
    → Steps s ms next
unfolding apply_all
apply_all-Steps s [] next h = subst (Steps s []) (ground arith) (done s)
apply_all-Steps s (m ∷ ms) next h =
    let (mid, e, f) = >>=-eq-ok (apply_mutation s m) (λ t. apply_all t ms) h in
    step s mid next m ms (apply_mutation-Step s m mid e) (apply_all-Steps mid ms next f)

-- Mutations that are steps are accepted.
pub Steps-apply_all :
    (s : DurableRunState) (ms : List DurableMutation) (next : DurableRunState)
    → Steps s ms next
    → apply_all s ms ≡ ok next
unfolding apply_all
Steps-apply_all _ _ _ (done s) = refl
Steps-apply_all _ _ _ (step s mid next m ms one rest) =
    rw (Step-apply_mutation s m mid one) (Steps-apply_all mid ms next rest)
