-- ===== src/Payments/Final.antt =====
-- A payment that is approved, rejected or cancelled stays as it is.
use d_transfert_backend.Base.{
  ℕ, String, Option, some, ◌≡◌, ◌≢◌, sym, ◌∙◌, subst, true, false, not, Bool, ap, ℕ_discrete,
}
use d_transfert_backend.Models.{Payment, payment_keyed, is_pending}
use d_transfert_backend.Table.{find}
use d_transfert_backend.Table.Laws.{find-append_some, find-update_row_ne}
use d_transfert_backend.Database.{Db}
use d_transfert_backend.Errors.{Error}
use d_transfert_backend.Service.{Service, Done, raise_if, ◌>>=◌}
use d_transfert_backend.Service.Keeps.{
  Keeps, Keeps-modify, Keeps-bind, Keeps-raise_if, Keeps-or_raise, Keeps-gets,
}
use d_transfert_backend.Service.Guarded.{
  Yields, Yields-pure, Yields-gets, Yields-or_raise, Yields-bind, Yields-after, Keeps-bind-Yields,
  Keeps-stopped,
}
use d_transfert_backend.Frame.{Frame}
use d_transfert_backend.Frame.Plain.{Elsewhere, Elsewhere-frame}
use d_transfert_backend.Payments.{
  PaymentFor, get_payment_for_party, add_payment, change_payment, approve_payment, reject_payment,
  cancel_payment,
}
use d_transfert_backend.Payments.Keeps.{
  approve_payment-Keeps, reject_payment-Keeps, cancel_payment-Keeps,
}

module _ (i : ℕ) (t : Payment) where
  abbrev pub Holds : Db → Type 0
  Holds = Elsewhere (λ ts ps cs rs qs os. find i ps ≡ some t)

  abbrev pub payment_frame : Frame Holds
  payment_frame = Elsewhere-frame (λ ts ps cs rs qs os. find i ps ≡ some t)

  pub add_payment-Holds : (x : Payment) → Keeps Holds (add_payment x)
  unfolding add_payment
  add_payment-Holds x = Keeps-modify _ (λ s h. find-append_some i s.payments x t h)

  change_other-Holds :
      (j : ℕ) (f : Payment → Payment)
      → j ≢ i
      → ((x : Payment) → (f x).id ≡ x.id)
      → Keeps Holds (change_payment j f)
  unfolding change_payment
  change_other-Holds j f ne same =
      Keeps-modify _ (λ s h. find-update_row_ne j i f s.payments same ne ∙ h)

  -- The handlers read the payment as it is.
  get_payment-Yields :
      (company_id : ℕ)
      → Yields Holds (λ (held : PaymentFor). held.payment ≡ t) (get_payment_for_party company_id i)
  unfolding get_payment_for_party
  get_payment-Yields company_id =
      Yields-bind (λ o. o ≡ some t) _ _ (Yields-gets _ (λ s h. h))
        λ o e.
          Yields-bind (λ x. x ≡ t) _ _ (Yields-or_raise o _ (λ a q. cc))
            λ x same.
              Yields-after _ _ (Keeps-gets _)
                λ found. Yields-after _ _ (Keeps-or_raise _ _) λ c. Yields-pure _ same

  module _ (decided : is_pending t.status ≡ false) where
    not_pending :
        (held : PaymentFor) → held.payment ≡ t → not (is_pending held.payment.status) ≡ true
    not_pending held e = ap (λ (x : Payment). not (is_pending x.status)) e ∙ ap not decided

    -- A handler that reads the payment and tests that it is pending does nothing.
    stopped :
        (c : ℕ) (guard : PaymentFor → Bool) (e : Error) (rest : PaymentFor → Done → Service Done)
        → Keeps Holds (
            get_payment_for_party c i >>= λ held. raise_if (guard held) e >>= λ u.
            raise_if (not (is_pending held.payment.status)) Error.conflict >>= rest held)
    stopped c guard e rest =
        Keeps-bind-Yields (λ (held : PaymentFor). held.payment ≡ t) _ _ (get_payment-Yields c)
          λ held same.
            Keeps-bind _ _ (Keeps-raise_if _ _) λ u. Keeps-stopped _ _ _ (not_pending held same)

    pub approve_payment-Holds : (c by j : ℕ) (p : Option ℕ) → Keeps Holds (approve_payment c by j p)
    unfolding approve_payment
    approve_payment-Holds c by j p = elim (ℕ_discrete j i) [
      | yes same ↦ subst (λ k. Keeps Holds (approve_payment c by k p)) (sym same) (stopped c _ _ _)
      | no other ↦
          approve_payment-Keeps payment_frame j (λ f h. change_other-Holds j f other h) c by p
    ]

    pub reject_payment-Holds : (c by j : ℕ) (r : String) → Keeps Holds (reject_payment c by j r)
    unfolding reject_payment
    reject_payment-Holds c by j r = elim (ℕ_discrete j i) [
      | yes same ↦ subst (λ k. Keeps Holds (reject_payment c by k r)) (sym same) (stopped c _ _ _)
      | no other ↦
          reject_payment-Keeps payment_frame j (λ f h. change_other-Holds j f other h) c by r
    ]

    pub cancel_payment-Holds : (c by j : ℕ) → Keeps Holds (cancel_payment c by j)
    unfolding cancel_payment
    cancel_payment-Holds c by j = elim (ℕ_discrete j i) [
      | yes same ↦ subst (λ k. Keeps Holds (cancel_payment c by k)) (sym same) (stopped c _ _ _)
      | no other ↦ cancel_payment-Keeps payment_frame j (λ f h. change_other-Holds j f other h) c by
    ]
