-- ===== src/Review/LinkRuns.antt =====
-- The operations that make and revoke links, as commands, and runs of them. The deletion of a
-- campaign or a workspace, which takes its links away, is not among them.
use omnipulse_backend.Base.{ℕ, ℤ, Text, Unicode, Bool, Option, List, [], ◌∷◌}
use omnipulse_backend.Base.Frames.{at}
use omnipulse_backend.Campaign.Types.{Campaign}
use omnipulse_backend.Review.LinkStore.{Desk, revoke_token}
use omnipulse_backend.Review.Links.{create_link, email_brand_link, notify_brand_revision}
use omnipulse_backend.Review.Handover.{
  Step, Step-refl, Step-trans, revoke_token-Step, create_link-Step, email_brand_link-Step,
  notify_brand_revision-Step,
}

pub data Command : Type 0 where
  makes : Option Campaign → Text → Text → ℤ → Command
  emails : (Text → Option Text) → Bool → Option Campaign → Text → Text → Text → Command
  notifies : Bool → Campaign → Text → Command
  revokes : Text → Text → Text → Command
  -- Time passes, and other statements are going to fail.
  later : ℕ → List Bool → Command

module _ ⦃uni : Unicode⦄ (hash : Text → Text) where
  unfoldable pub execute : Command → Desk → Desk
  unfolding create_link email_brand_link notify_brand_revision revoke_token
  execute (makes campaign label by days) d = (create_link hash campaign label by days d).1
  execute (emails parse has campaign to name by) d =
      (email_brand_link hash parse has campaign to name by d).1
  execute (notifies has c by) d = (notify_brand_revision hash has c by d).1
  execute (revokes tenant campaign id) d = (revoke_token tenant campaign id d).1
  execute (later now faults) d = record d { now = now; faults = faults }

  unfoldable pub run : List Command → Desk → Desk
  unfolding execute
  run [] d = d
  run (k ∷ ks) d = run ks (execute k d)

  execute-Step : (k : Command) (d : Desk) → Step d (execute k d)
  unfolding execute
  execute-Step (makes campaign label by days) d =
      at Step _ (create_link-Step hash campaign label by days) d
  execute-Step (emails parse has campaign to name by) d =
      at Step _ (email_brand_link-Step hash parse has campaign to name by) d
  execute-Step (notifies has c by) d = at Step _ (notify_brand_revision-Step hash has c by) d
  execute-Step (revokes tenant campaign id) d = at Step _ (revoke_token-Step tenant campaign id) d
  execute-Step (later now faults) d = record { follow = (Step-refl d).follow }

  pub run-Step : (ks : List Command) (d : Desk) → Step d (run ks d)
  unfolding run
  run-Step [] d = Step-refl d
  run-Step (k ∷ ks) d =
      Step-trans d (execute k d) (run ks (execute k d)) (execute-Step k d)
        (run-Step ks (execute k d))
