-- ===== src/Collaborations/Proposals.antt =====
-- collaboration_service: the proposals of a new rate, and what becomes of them.
use d_transfert_backend.Base.{ℕ, not, Option, none, some, ◌==◌, id_eq, list_eq, string_eq, is_some}
use d_transfert_backend.Money.{Decimal}
use d_transfert_backend.Errors.{Error}
use d_transfert_backend.Models.{
  CollaborationRateHistory, RateProposalStatus, NotificationType, collaboration_keyed, rate_keyed,
  company_keyed, is_accepted_collaboration, is_proposed,
}
use d_transfert_backend.Table.{find, provided}
use d_transfert_backend.Database.{Db}
use d_transfert_backend.Service.{
  Service, Done, pure, gets, query, or_raise, ◌>>=◌, ◌>>◌, raise_if, fresh_id,
}
use d_transfert_backend.Audit.{log_action, notify}
use d_transfert_backend.Exchange.{other_party}
use d_transfert_backend.Collaborations.{
  get_pending_proposal, change_collaboration, change_rate, add_rate, get_owned_collaboration,
  decided,
}

abbrev pub rate_of : Option CollaborationRateHistory → Option Decimal
rate_of none = none
rate_of (some r) = some r.new_rate

abbrev pub find_rate : Option ℕ → Db → Option CollaborationRateHistory
find_rate none s = none
find_rate (some i) s = find i s.rates

unfoldable pub propose_rate_change : ℕ → ℕ → ℕ → Decimal → Service ℕ
propose_rate_change company_id by collaboration_id new_rate = do
  collaboration ← get_owned_collaboration company_id collaboration_id
  raise_if (not (is_accepted_collaboration collaboration.status)) Error.conflict
  pending ← query (get_pending_proposal collaboration_id)
  raise_if (is_some pending) Error.conflict
  current ← gets (find_rate collaboration.current_rate_id)
  proposal_id ← fresh_id
  add_rate (record {
    id = proposal_id;
    collaboration_id = collaboration_id;
    old_rate = rate_of current;
    new_rate = new_rate;
    status = RateProposalStatus.proposed;
    proposed_by_company_id = company_id;
    decided_by_company_id = none;
    decided_at = none;
  })
  log_action company_id by "collaboration.rate_propose" "collaboration_rate_history" proposal_id
  notify (other_party collaboration company_id) NotificationType.rate_proposed "collaboration"
      collaboration_id
  pure proposal_id

-- `_get_owned_proposal`
unfoldable pub get_owned_proposal : ℕ → ℕ → ℕ → Service CollaborationRateHistory
get_owned_proposal company_id collaboration_id proposal_id = do
  get_owned_collaboration company_id collaboration_id
  found ←
      gets (λ s. provided (λ r. r.collaboration_id == collaboration_id) (find proposal_id s.rates))
  or_raise found Error.not_found

unfoldable pub accept_rate_proposal : ℕ → ℕ → ℕ → ℕ → Service Done
accept_rate_proposal company_id by collaboration_id proposal_id = do
  proposal ← get_owned_proposal company_id collaboration_id proposal_id
  raise_if (not (is_proposed proposal.status)) Error.conflict
  raise_if (proposal.proposed_by_company_id == company_id) Error.permission_denied
  now ← gets (λ s. s.now)
  change_rate proposal_id (decided RateProposalStatus.accepted company_id now)
  change_collaboration collaboration_id (λ c. record c { current_rate_id = some proposal_id })
  log_action company_id by "collaboration.rate_accept" "collaboration_rate_history" proposal_id

unfoldable pub reject_rate_proposal : ℕ → ℕ → ℕ → ℕ → Service Done
reject_rate_proposal company_id by collaboration_id proposal_id = do
  proposal ← get_owned_proposal company_id collaboration_id proposal_id
  raise_if (not (is_proposed proposal.status)) Error.conflict
  raise_if (proposal.proposed_by_company_id == company_id) Error.permission_denied
  now ← gets (λ s. s.now)
  change_rate proposal_id (decided RateProposalStatus.rejected company_id now)
  log_action company_id by "collaboration.rate_reject" "collaboration_rate_history" proposal_id
