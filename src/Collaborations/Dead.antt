-- ===== src/Collaborations/Dead.antt =====
-- Suspension and archiving: `_other_party` is not defined in collaboration_service.py, so both calls
-- end in a NameError, and nothing that they wrote is committed.
use d_transfert_backend.Base.{ℕ}
use d_transfert_backend.Models.{collaboration_keyed}
use d_transfert_backend.Service.Failure.{Fails, Fails-bind, Fails-raise}
use d_transfert_backend.Collaborations.{suspend_collaboration, archive_collaboration}

module _ (company_id by collaboration_id : ℕ) where
  pub suspend_collaboration-Fails : Fails (suspend_collaboration company_id by collaboration_id)
  unfolding suspend_collaboration
  suspend_collaboration-Fails = search (Fails-bind, Fails-raise) depth 10

  pub archive_collaboration-Fails : Fails (archive_collaboration company_id by collaboration_id)
  unfolding archive_collaboration
  archive_collaboration-Fails = search (Fails-bind, Fails-raise) depth 10
