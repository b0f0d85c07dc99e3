-- ===== src/Collaborations/Keeps.antt =====
-- The operations of collaboration_service keep every invariant that allows their writes.
use d_transfert_backend.Base.{ℕ, ◌≡◌, Bool, true, false, List}
use d_transfert_backend.Money.{Decimal}
use d_transfert_backend.Models.{Collaboration, CollaborationStatus, CollaborationRateHistory}
use d_transfert_backend.Database.{Db}
use d_transfert_backend.Service.Keeps.{Keeps, Keeps-modify}
use d_transfert_backend.Frame.{Frame, frame_rules}
use d_transfert_backend.Service.Failure.{Fails-Keeps}
use d_transfert_backend.Collaborations.Dead.{
  suspend_collaboration-Fails, archive_collaboration-Fails,
}
use d_transfert_backend.Collaborations.{
  change_collaboration, change_rate, add_collaboration, add_rate, get_owned_collaboration,
  CollaborationRequestCreate, CollaborationUpdateRequest, request_collaboration,
  accept_collaboration, reject_collaboration, cancel_collaboration, update_collaboration,
  suspend_collaboration, archive_collaboration,
}
use d_transfert_backend.Collaborations.Proposals.{
  get_owned_proposal, propose_rate_change, accept_rate_proposal, reject_rate_proposal,
}

module _ {P : Db → Type 0} (frame : Frame P)
    (rates : (x : List CollaborationRateHistory) (s : Db) → P s → P (record s { rates = x })) where
  change_rate-Keeps :
      (i : ℕ) (f : CollaborationRateHistory → CollaborationRateHistory) → Keeps P (change_rate i f)
  unfolding change_rate
  change_rate-Keeps i f = Keeps-modify _ (λ s h. rates _ s h)

  add_rate-Keeps : (r : CollaborationRateHistory) → Keeps P (add_rate r)
  unfolding add_rate
  add_rate-Keeps r = Keeps-modify _ (λ s h. rates _ s h)

  get_owned-Keeps : (company_id i : ℕ) → Keeps P (get_owned_collaboration company_id i)
  unfolding get_owned_collaboration
  get_owned-Keeps company_id i = search frame_rules

  get_proposal-Keeps : (company_id i j : ℕ) → Keeps P (get_owned_proposal company_id i j)
  unfolding get_owned_proposal
  get_proposal-Keeps company_id i j = search (frame_rules, get_owned-Keeps)

-- Not suspended, not archived.
abbrev pub is_live : CollaborationStatus → Bool
is_live CollaborationStatus.suspended = false
is_live CollaborationStatus.archived = false
is_live _ = true

ruleset collaboration_rules =
    (frame_rules, change_rate-Keeps, add_rate-Keeps, get_owned-Keeps, get_proposal-Keeps)

module _ {P : Db → Type 0} (frame : Frame P)
    (rates : (x : List CollaborationRateHistory) (s : Db) → P s → P (record s { rates = x })) where
  pub request_collaboration-Keeps :
      (company_id : ℕ) (payload : CollaborationRequestCreate)
      → ((c : Collaboration) → is_live c.status ≡ true → Keeps P (add_collaboration c))
      → Keeps P (request_collaboration company_id payload)
  unfolding request_collaboration
  request_collaboration-Keeps company_id payload add =
      search (collaboration_rules, rates, add) depth 14

  pub propose_rate_change-Keeps :
      (company_id by i : ℕ) (rate : Decimal) → Keeps P (propose_rate_change company_id by i rate)
  unfolding propose_rate_change
  propose_rate_change-Keeps company_id by i rate = search (collaboration_rules, rates) depth 14

  pub reject_rate_proposal-Keeps :
      (company_id by i j : ℕ) → Keeps P (reject_rate_proposal company_id by i j)
  unfolding reject_rate_proposal
  reject_rate_proposal-Keeps company_id by i j = search (collaboration_rules, rates) depth 14

module _ {P : Db → Type 0} (frame : Frame P)
    (rates : (x : List CollaborationRateHistory) (s : Db) → P s → P (record s { rates = x }))
    (collaboration_id : ℕ)
    (change : (f : Collaboration → Collaboration)
      → ((c : Collaboration) → (f c).id ≡ c.id)
      → ((c : Collaboration) → is_live c.status ≡ true → is_live (f c).status ≡ true)
      → Keeps P (change_collaboration collaboration_id f)) where
  pub accept_collaboration-Keeps :
      (company_id by : ℕ) → Keeps P (accept_collaboration company_id by collaboration_id)
  unfolding accept_collaboration
  accept_collaboration-Keeps company_id by = search (collaboration_rules, rates, change) depth 14

  pub reject_collaboration-Keeps :
      (company_id by : ℕ) → Keeps P (reject_collaboration company_id by collaboration_id)
  unfolding reject_collaboration
  reject_collaboration-Keeps company_id by = search (collaboration_rules, rates, change) depth 14

  pub cancel_collaboration-Keeps :
      (company_id by : ℕ) → Keeps P (cancel_collaboration company_id by collaboration_id)
  unfolding cancel_collaboration
  cancel_collaboration-Keeps company_id by = search (collaboration_rules, rates, change) depth 14

  pub update_collaboration-Keeps :
      (company_id by : ℕ) (payload : CollaborationUpdateRequest)
      → Keeps P (update_collaboration company_id by collaboration_id payload)
  unfolding update_collaboration
  update_collaboration-Keeps company_id by payload =
      search (collaboration_rules, rates, change) depth 14

  pub accept_rate_proposal-Keeps :
      (company_id by j : ℕ) → Keeps P (accept_rate_proposal company_id by collaboration_id j)
  unfolding accept_rate_proposal
  accept_rate_proposal-Keeps company_id by j = search (collaboration_rules, rates, change) depth 14

module _ {P : Db → Type 0} where
  pub suspend_collaboration-Keeps :
      (company_id by i : ℕ) → Keeps P (suspend_collaboration company_id by i)
  suspend_collaboration-Keeps company_id by i =
      Fails-Keeps _ (suspend_collaboration-Fails company_id by i)

  pub archive_collaboration-Keeps :
      (company_id by i : ℕ) → Keeps P (archive_collaboration company_id by i)
  archive_collaboration-Keeps company_id by i =
      Fails-Keeps _ (archive_collaboration-Fails company_id by i)
