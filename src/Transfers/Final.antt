-- ===== src/Transfers/Final.antt =====
-- A transfer that is approved, rejected or cancelled stays as it is.
use d_transfert_backend.Base.{
  ℕ, String, Option, some, ◌≡◌, ◌≢◌, sym, ◌∙◌, subst, true, false, not, Bool, ap, ℕ_discrete,
}
use d_transfert_backend.Models.{Transfer, transfer_keyed, is_pending}
use d_transfert_backend.Table.{find}
use d_transfert_backend.Table.Laws.{find-append_some, find-update_row_ne}
use d_transfert_backend.Database.{Db}
use d_transfert_backend.Errors.{Error}
use d_transfert_backend.Service.{Service, Done, raise_if, ◌>>=◌}
use d_transfert_backend.Service.Keeps.{
  Keeps, Keeps-modify, Keeps-bind, Keeps-raise_if, Keeps-or_raise, Keeps-gets,
}
use d_transfert_backend.Service.Guarded.{
  Yields, Yields-pure, Yields-gets, Yields-or_raise, Yields-bind, Yields-after, Keeps-bind-Yields,
  Keeps-stopped,
}
use d_transfert_backend.Frame.{Frame}
use d_transfert_backend.Frame.Plain.{Elsewhere, Elsewhere-frame}
use d_transfert_backend.Transfers.{
  TransferFor, get_transfer_for_party, add_transfer, change_transfer,
}
use d_transfert_backend.Transfers.Decisions.{approve_transfer, reject_transfer, cancel_transfer}
use d_transfert_backend.Transfers.Keeps.{
  approve_transfer-Keeps, reject_transfer-Keeps, cancel_transfer-Keeps,
}

module _ (i : ℕ) (t : Transfer) where
  abbrev pub Holds : Db → Type 0
  Holds = Elsewhere (λ ts ps cs rs qs os. find i ts ≡ some t)

  abbrev pub transfer_frame : Frame Holds
  transfer_frame = Elsewhere-frame (λ ts ps cs rs qs os. find i ts ≡ some t)

  pub add_transfer-Holds : (x : Transfer) → Keeps Holds (add_transfer x)
  unfolding add_transfer
  add_transfer-Holds x = Keeps-modify _ (λ s h. find-append_some i s.transfers x t h)

  change_other-Holds :
      (j : ℕ) (f : Transfer → Transfer)
      → j ≢ i
      → ((x : Transfer) → (f x).id ≡ x.id)
      → Keeps Holds (change_transfer j f)
  unfolding change_transfer
  change_other-Holds j f ne same =
      Keeps-modify _ (λ s h. find-update_row_ne j i f s.transfers same ne ∙ h)

  -- The handlers read the transfer as it is.
  get_transfer-Yields :
      (company_id : ℕ)
      → Yields Holds
          (λ (held : TransferFor). held.transfer ≡ t)
          (get_transfer_for_party company_id i)
  unfolding get_transfer_for_party
  get_transfer-Yields company_id =
      Yields-bind (λ o. o ≡ some t) _ _ (Yields-gets _ (λ s h. h))
        λ o e.
          Yields-bind (λ x. x ≡ t) _ _ (Yields-or_raise o _ (λ a q. cc))
            λ x same.
              Yields-after _ _ (Keeps-gets _)
                λ found. Yields-after _ _ (Keeps-or_raise _ _) λ c. Yields-pure _ same

  module _ (decided : is_pending t.status ≡ false) where
    not_pending :
        (held : TransferFor) → held.transfer ≡ t → not (is_pending held.transfer.status) ≡ true
    not_pending held e = ap (λ (x : Transfer). not (is_pending x.status)) e ∙ ap not decided

    -- A handler that reads the transfer and tests that it is pending does nothing.
    stopped :
        (c : ℕ) (guard : TransferFor → Bool) (e : Error) (rest : TransferFor → Done → Service Done)
        → Keeps Holds (
            get_transfer_for_party c i >>= λ held. raise_if (guard held) e >>= λ u.
            raise_if (not (is_pending held.transfer.status)) Error.conflict >>= rest held)
    stopped c guard e rest =
        Keeps-bind-Yields (λ (held : TransferFor). held.transfer ≡ t) _ _ (get_transfer-Yields c)
          λ held same.
            Keeps-bind _ _ (Keeps-raise_if _ _) λ u. Keeps-stopped _ _ _ (not_pending held same)

    pub approve_transfer-Holds :
        (c by j w : ℕ) (p : Option ℕ) → Keeps Holds (approve_transfer c by j w p)
    unfolding approve_transfer
    approve_transfer-Holds c by j w p = elim (ℕ_discrete j i) [
      | yes same ↦
          subst (λ k. Keeps Holds (approve_transfer c by k w p)) (sym same) (stopped c _ _ _)
      | no other ↦
          approve_transfer-Keeps transfer_frame j (λ f h. change_other-Holds j f other h) c by w p
    ]

    pub reject_transfer-Holds : (c by j : ℕ) (r : String) → Keeps Holds (reject_transfer c by j r)
    unfolding reject_transfer
    reject_transfer-Holds c by j r = elim (ℕ_discrete j i) [
      | yes same ↦ subst (λ k. Keeps Holds (reject_transfer c by k r)) (sym same) (stopped c _ _ _)
      | no other ↦
          reject_transfer-Keeps transfer_frame j (λ f h. change_other-Holds j f other h) c by r
    ]

    pub cancel_transfer-Holds : (c by j : ℕ) → Keeps Holds (cancel_transfer c by j)
    unfolding cancel_transfer
    cancel_transfer-Holds c by j = elim (ℕ_discrete j i) [
      | yes same ↦ subst (λ k. Keeps Holds (cancel_transfer c by k)) (sym same) (stopped c _ _ _)
      | no other ↦
          cancel_transfer-Keeps transfer_frame j (λ f h. change_other-Holds j f other h) c by
    ]
