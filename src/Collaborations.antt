-- ===== src/Collaborations.antt =====
-- app/services/collaboration_service.py with collaboration_repository.py,
-- collaborator_balance_repository.py and company_repository.get_by_registration_code.
pub mod Balance
pub mod Dead
pub mod Keeps
pub mod Proposals
use d_transfert_backend.Base.{
  ℕ, String, Text, Bool, true, false, not, Option, none, some, List, [], ◌∷◌, ◌++◌, ◌==◌, id_eq,
  list_eq, string_eq, ◌&&◌, ◌||◌, is_some, keep, map, if◌then◌else◌, or_else,
}
use d_transfert_backend.Money.{Decimal, sum}
use d_transfert_backend.Int.{◌-ℤ◌}
use d_transfert_backend.Errors.{Error, Result}
use d_transfert_backend.Models.{
  Collaboration, CollaborationStatus, CollaborationRateHistory, RateProposalStatus,
  CollaboratorBalanceMovement, Company, NotificationType, collaboration_keyed, rate_keyed,
  company_keyed, is_pending_collaboration, is_accepted_collaboration, is_suspended_collaboration,
  is_proposed,
}
use d_transfert_backend.Table.{find, update_row, provided, scalar_one_or_none}
use d_transfert_backend.Database.{Db}
use d_transfert_backend.Service.{
  Service, Done, pure, raise, gets, query, or_raise, ◌>>=◌, ◌>>◌, modify, raise_if, when, when_some,
  fresh_id,
}
use d_transfert_backend.Audit.{log_action, notify}
use d_transfert_backend.Exchange.{is_party, other_party}

-- get_active_between: a pending or accepted collaboration of two companies, in either direction.
abbrev pub is_between : ℕ → ℕ → Collaboration → Bool
is_between a b c =
    c.initiator_company_id == a && c.target_company_id == b
    || c.initiator_company_id == b && c.target_company_id == a

abbrev pub is_open : CollaborationStatus → Bool
is_open status = is_pending_collaboration status || is_accepted_collaboration status

abbrev pub get_active_between : ℕ → ℕ → Db → Result (Option Collaboration)
get_active_between a b s =
    scalar_one_or_none (λ c. is_between a b c && is_open c.status) s.collaborations

-- get_pending_proposal
abbrev pub get_pending_proposal : ℕ → Db → Result (Option CollaborationRateHistory)
get_pending_proposal collaboration_id s =
    scalar_one_or_none (λ r. r.collaboration_id == collaboration_id && is_proposed r.status) s.rates

-- get_balance_for_company: the amounts owed to the company less those that it owes.
abbrev pub amounts : List CollaboratorBalanceMovement → List Decimal
amounts rows = map (λ m. m.amount) rows

unfoldable pub balance_for_company : ℕ → ℕ → List CollaboratorBalanceMovement → Decimal
balance_for_company collaboration_id company_id rows =
    sum (
      amounts (
        keep (λ m. m.collaboration_id == collaboration_id && m.creditor_company_id == company_id)
          rows))
    -ℤ sum (
        amounts (
          keep (λ m. m.collaboration_id == collaboration_id && m.debtor_company_id == company_id)
            rows))

unfoldable pub change_collaboration : ℕ → (Collaboration → Collaboration) → Service Done
unfolding modify
change_collaboration i f = modify λ s. record s { collaborations = update_row i f s.collaborations }

unfoldable pub change_rate :
    ℕ → (CollaborationRateHistory → CollaborationRateHistory) → Service Done
unfolding modify
change_rate i f = modify λ s. record s { rates = update_row i f s.rates }

unfoldable pub add_collaboration : Collaboration → Service Done
unfolding modify
add_collaboration c = modify λ s. record s { collaborations = s.collaborations ++ c ∷ [] }

unfoldable pub add_rate : CollaborationRateHistory → Service Done
unfolding modify
add_rate r = modify λ s. record s { rates = s.rates ++ r ∷ [] }

-- `_get_owned_collaboration`
unfoldable pub get_owned_collaboration : ℕ → ℕ → Service Collaboration
get_owned_collaboration company_id collaboration_id = do
  found ← gets (λ s. provided (is_party company_id) (find collaboration_id s.collaborations))
  or_raise found Error.not_found

abbrev pub set_status : CollaborationStatus → Collaboration → Collaboration
set_status status c = record c { status = status }

-- `proposal.status = ...; proposal.decided_by_company_id = ...; proposal.decided_at = now`
abbrev pub decided :
    RateProposalStatus → ℕ → ℕ → CollaborationRateHistory → CollaborationRateHistory
decided status company_id now r = record r {
  status = status;
  decided_by_company_id = some company_id;
  decided_at = some now;
}

-- app/schemas/collaboration.py
pub record CollaborationRequestCreate : Type 0 where
  pub target_matricule : Text
  pub currency : String
  pub initial_rate : Decimal

pub record CollaborationUpdateRequest : Type 0 where
  pub currency : Option String
  pub initial_rate : Option Decimal

unfoldable pub request_collaboration : ℕ → CollaborationRequestCreate → Service ℕ
request_collaboration company_id payload = do
  found ←
      query
        (λ s. scalar_one_or_none (λ c. c.registration_code == payload.target_matricule) s.companies)
  target ← or_raise found Error.not_found
  raise_if (target.id == company_id) Error.conflict
  active ← query (get_active_between company_id target.id)
  raise_if (is_some active) Error.conflict
  collaboration_id ← fresh_id
  add_collaboration (record {
    id = collaboration_id;
    initiator_company_id = company_id;
    target_company_id = target.id;
    currency = payload.currency;
    status = CollaborationStatus.pending;
    current_rate_id = none;
  })
  proposal_id ← fresh_id
  add_rate (record {
    id = proposal_id;
    collaboration_id = collaboration_id;
    old_rate = none;
    new_rate = payload.initial_rate;
    status = RateProposalStatus.proposed;
    proposed_by_company_id = company_id;
    decided_by_company_id = none;
    decided_at = none;
  })
  requester ← gets (λ s. find company_id s.companies)
  or_raise requester Error.attribute_error
  notify target.id NotificationType.collaboration_request "collaboration" collaboration_id
  pure collaboration_id

unfoldable pub accept_collaboration : ℕ → ℕ → ℕ → Service Done
accept_collaboration company_id by collaboration_id = do
  collaboration ← get_owned_collaboration company_id collaboration_id
  raise_if (not (collaboration.target_company_id == company_id)) Error.permission_denied
  raise_if (not (is_pending_collaboration collaboration.status)) Error.conflict
  pending ← query (get_pending_proposal collaboration_id)
  now ← gets (λ s. s.now)
  when_some pending (λ proposal.
      change_rate proposal.id (decided RateProposalStatus.accepted company_id now)
      >> change_collaboration collaboration_id
          (λ c. record c { current_rate_id = some proposal.id }))
  change_collaboration collaboration_id (set_status CollaborationStatus.accepted)
  log_action company_id by "collaboration.accept" "collaboration" collaboration_id
  notify collaboration.initiator_company_id NotificationType.collaboration_accepted "collaboration"
      collaboration_id

unfoldable pub reject_collaboration : ℕ → ℕ → ℕ → Service Done
reject_collaboration company_id by collaboration_id = do
  collaboration ← get_owned_collaboration company_id collaboration_id
  raise_if (not (collaboration.target_company_id == company_id)) Error.permission_denied
  raise_if (not (is_pending_collaboration collaboration.status)) Error.conflict
  pending ← query (get_pending_proposal collaboration_id)
  now ← gets (λ s. s.now)
  when_some pending
      (λ proposal. change_rate proposal.id (decided RateProposalStatus.rejected company_id now))
  change_collaboration collaboration_id (set_status CollaborationStatus.rejected)
  log_action company_id by "collaboration.reject" "collaboration" collaboration_id
  notify collaboration.initiator_company_id NotificationType.collaboration_rejected "collaboration"
      collaboration_id

unfoldable pub cancel_collaboration : ℕ → ℕ → ℕ → Service Done
cancel_collaboration company_id by collaboration_id = do
  collaboration ← get_owned_collaboration company_id collaboration_id
  raise_if (not (collaboration.initiator_company_id == company_id)) Error.permission_denied
  raise_if (not (is_pending_collaboration collaboration.status)) Error.conflict
  change_collaboration collaboration_id (set_status CollaborationStatus.cancelled)
  log_action company_id by "collaboration.cancel" "collaboration" collaboration_id
  notify collaboration.target_company_id NotificationType.collaboration_rejected "collaboration"
      collaboration_id

-- A field that is absent or null keeps the currency; the notes of the rows are not kept.
unfoldable pub update_collaboration : ℕ → ℕ → ℕ → CollaborationUpdateRequest → Service Done
update_collaboration company_id by collaboration_id payload = do
  collaboration ← get_owned_collaboration company_id collaboration_id
  raise_if (not (collaboration.initiator_company_id == company_id)) Error.permission_denied
  raise_if (not (is_pending_collaboration collaboration.status)) Error.conflict
  when_some payload.currency
      (λ currency. change_collaboration collaboration_id (λ c. record c { currency = currency }))
  pending ← query (get_pending_proposal collaboration_id)
  when_some payload.initial_rate (λ rate.
      when_some pending (λ proposal. change_rate proposal.id (λ r. record r { new_rate = rate })))
  log_action company_id by "collaboration.update" "collaboration" collaboration_id

-- Both functions below then call `_other_party`, which the module neither defines nor imports: the
-- call is a NameError, and the notification and the commit behind it are never reached.
unfoldable pub suspend_collaboration : ℕ → ℕ → ℕ → Service Done
suspend_collaboration company_id by collaboration_id = do
  collaboration ← get_owned_collaboration company_id collaboration_id
  raise_if (not (is_accepted_collaboration collaboration.status)) Error.conflict
  change_collaboration collaboration_id (set_status CollaborationStatus.suspended)
  log_action company_id by "collaboration.suspend" "collaboration" collaboration_id
  raise Error.name_error

unfoldable pub archive_collaboration : ℕ → ℕ → ℕ → Service Done
archive_collaboration company_id by collaboration_id = do
  collaboration ← get_owned_collaboration company_id collaboration_id
  raise_if
      (not (
        is_accepted_collaboration collaboration.status
        || is_suspended_collaboration collaboration.status))
      Error.conflict
  change_collaboration collaboration_id (set_status CollaborationStatus.archived)
  log_action company_id by "collaboration.archive" "collaboration" collaboration_id
  raise Error.name_error
