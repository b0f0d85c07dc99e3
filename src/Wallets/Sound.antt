-- ===== src/Wallets/Sound.antt =====
-- The operations of wallet_service keep the cash ledger sound.
use d_transfert_backend.Base.{
  ℕ, String, ◌+◌, ◌≡◌, ap, sym, ◌∙◌, [], ◌∷◌, ◌++◌, arith, ℕ_discrete, inl, inr,
}
use d_transfert_backend.Money.{zero_amount}
use d_transfert_backend.Models.{Wallet, WalletStatus, wallet_keyed, NotificationType}
use d_transfert_backend.Table.{update_row}
use d_transfert_backend.Table.Laws.{
  find-update_row-some, find-none-update_row, find-none_of_update_row, find-append, find-append_ne,
}
use d_transfert_backend.Database.{Db}
use d_transfert_backend.Service.{Service, ◌>>=◌, ◌>>◌, fresh_id}
use d_transfert_backend.Service.Keeps.{Keeps, Kept, keeps_rules, Keeps-modify, Keeps-fresh_id}
use d_transfert_backend.Audit.{log_action, notify}
use d_transfert_backend.Wallets.{
  WalletCreateRequest, WalletUpdateRequest, add_wallet, create_wallet, update_wallet,
  set_wallet_status, get_wallet, change_wallet,
}
use d_transfert_backend.Wallets.Ledger.{IsSound, IsLedger, IsBacked, apply_movement-IsSound}

-- A write to a wallet that leaves its id and its balance alone.
pub update-IsSound :
    (i : ℕ) (f : Wallet → Wallet) (s : Db)
    → ((w : Wallet) → (f w).id ≡ w.id)
    → ((w : Wallet) → (f w).balance ≡ w.balance)
    → IsSound s
    → IsSound (record s { wallets = update_row i f s.wallets })
update-IsSound i f s same_id same_balance sound = record {
  backing = λ j v h.
      let (w, found, which) = find-update_row-some i j f s.wallets v same_id h in
      let b = sound.backing j w found in
      let e : v.balance ≡ w.balance = elim which [
        | inl changed ↦ ap (λ (x : Wallet). x.balance) changed ∙ same_balance w
        | inr left ↦ ap (λ (x : Wallet). x.balance) left
      ] in
      record { nonneg = rw e b.nonneg; cents = rw e b.cents; backed = e ∙ b.backed };
  orphans = λ j h. sound.orphans j (find-none_of_update_row i j f s.wallets same_id h);
  fresh = λ j h. find-none-update_row i j f s.wallets same_id (sound.fresh j h);
}

pub fresh_id-IsSound : Keeps IsSound fresh_id
fresh_id-IsSound = Keeps-fresh_id λ s sound. record {
  backing = sound.backing;
  orphans = sound.orphans;
  fresh = λ i h. sound.fresh i (omega arith);
}

-- A wallet with the id just given out and an empty balance.
created-IsSound :
    (w : Wallet) (s : Db)
    → w.id ≡ s.next_id
    → w.balance ≡ zero_amount
    → IsSound s
    → IsSound (record s { next_id = s.next_id + 1; wallets = s.wallets ++ w ∷ [] })
created-IsSound w s new empty sound = record {
  backing = λ i v h. elim (ℕ_discrete w.id i) [
    | yes same ↦
        let missing = sound.fresh i (omega arith) in
        let e : w ≡ v = ground (arith, find-append i s.wallets w) in
        let zero_balance : v.balance ≡ zero_amount = rw (← e) empty in
        record {
          nonneg = rw zero_balance (omega arith);
          cents = rw zero_balance (omega arith);
          backed = zero_balance ∙ sym (sound.orphans i missing);
        }
    | no other ↦ sound.backing i v (rw (find-append_ne i s.wallets w other) at h)
  ];
  orphans = λ i h. sound.orphans i (ground (arith, find-append i s.wallets w));
  fresh = λ i h. rw (find-append_ne i s.wallets w (omega arith)) (sound.fresh i (omega arith));
}

-- A new wallet row with a fresh id and an empty balance, and then a call that keeps the ledger sound.
pub new_wallet-IsSound :
    {A : Type 0} (row : ℕ → Wallet) (rest : ℕ → Service A)
    → ((i : ℕ) → (row i).id ≡ i)
    → ((i : ℕ) → (row i).balance ≡ zero_amount)
    → ((i : ℕ) → Keeps IsSound (rest i))
    → Keeps IsSound (fresh_id >>= λ i. add_wallet (row i) >> rest i)
unfolding ◌>>=◌ fresh_id add_wallet
new_wallet-IsSound row rest new empty k = record {
  at = λ s sound.
      (k s.next_id).at _
        (created-IsSound (row s.next_id) s (new s.next_id) (empty s.next_id) sound);
}

pub log_action-IsSound :
    (company_id user_id : ℕ) (action entity : String) (entity_id : ℕ)
    → Keeps IsSound (log_action company_id user_id action entity entity_id)
unfolding log_action
log_action-IsSound company_id user_id action entity entity_id = Keeps-modify _ (λ s h. h)

pub notify-IsSound :
    (company_id : ℕ) (type : NotificationType) (link : String) (link_id : ℕ)
    → Keeps IsSound (notify company_id type link link_id)
unfolding notify
notify-IsSound company_id type link link_id = Keeps-modify _ (λ s h. h)

pub ruleset sound_rules =
    (keeps_rules, fresh_id-IsSound, log_action-IsSound, notify-IsSound, apply_movement-IsSound)

pub get_wallet-IsSound :
    (company_id wallet_id : ℕ) → Keeps IsSound (get_wallet company_id wallet_id)
unfolding get_wallet
get_wallet-IsSound company_id wallet_id = search sound_rules

pub create_wallet-IsSound :
    (company_id by : ℕ) (payload : WalletCreateRequest)
    → Keeps IsSound (create_wallet company_id by payload)
unfolding create_wallet
create_wallet-IsSound company_id by payload = search (sound_rules, new_wallet-IsSound) depth 8

pub change_wallet-IsSound :
    (i : ℕ) (f : Wallet → Wallet)
    → ((w : Wallet) → (f w).id ≡ w.id)
    → ((w : Wallet) → (f w).balance ≡ w.balance)
    → Keeps IsSound (change_wallet i f)
unfolding change_wallet
change_wallet-IsSound i f same_id same_balance =
    Keeps-modify _ (λ s h. update-IsSound i f s same_id same_balance h)

pub ruleset wallet_rules = (sound_rules, get_wallet-IsSound, change_wallet-IsSound)

pub update_wallet-IsSound :
    (company_id by wallet_id : ℕ) (payload : WalletUpdateRequest)
    → Keeps IsSound (update_wallet company_id by wallet_id payload)
unfolding update_wallet
update_wallet-IsSound company_id by wallet_id payload = search wallet_rules

pub set_wallet_status-IsSound :
    (company_id by wallet_id : ℕ) (status : WalletStatus)
    → Keeps IsSound (set_wallet_status company_id by wallet_id status)
unfolding set_wallet_status
set_wallet_status-IsSound company_id by wallet_id status = search wallet_rules
