-- ===== src/Transfers/Rates.antt =====
-- The private rate of a transfer: the loops of `create_transfer` over the scopes, the most specific
-- first, and over the destination currency and then any destination.
use d_transfert_backend.Base.{
  ℕ, String, Bool, Option, none, some, List, [], ◌∷◌, ◌==◌, id_eq, string_eq, option_eq, ◌&&◌, ◌||◌,
  keep,
}
use d_transfert_backend.Models.{PrivateSendingRate}
use d_transfert_backend.Table.{first_match}
use d_transfert_backend.Database.{Db}

-- private_rate_repository.list_active_for_pair
abbrev pub list_active_for_pair : ℕ → String → String → Db → List PrivateSendingRate
list_active_for_pair company_id currency target_currency s =
    keep
      (λ r.
        r.company_id == company_id
        && (r.currency == currency
            && ((r.target_currency == some target_currency || r.target_currency == none)
                && r.is_active)))
      s.private_rates

-- The collaboration and the operation type that a loop looks for.
pub record Scope : Type 0 where
  pub collaboration_id : Option ℕ
  pub operation_type : Option String

abbrev pub scopes : ℕ → String → List Scope
scopes collaboration_id send_mode =
    record { collaboration_id = some collaboration_id; operation_type = some send_mode }
    ∷ record { collaboration_id = some collaboration_id; operation_type = none }
    ∷ record { collaboration_id = none; operation_type = none }
    ∷ []

abbrev pub targets : String → List (Option String)
targets target_currency = some target_currency ∷ none ∷ []

abbrev pub in_scope : Scope → Option String → PrivateSendingRate → Bool
in_scope scope target r =
    r.collaboration_id == scope.collaboration_id
    && (r.operation_type == scope.operation_type && r.target_currency == target)

abbrev pub or_later : {A : Type 0} → Option A → Option A → Option A
or_later none later = later
or_later (some a) later = some a

unfoldable pub over_targets :
    List PrivateSendingRate → Scope → List (Option String) → Option PrivateSendingRate
over_targets rates scope [] = none
over_targets rates scope (t ∷ ts) =
    or_later (first_match (in_scope scope t) rates) (over_targets rates scope ts)

unfoldable pub over_scopes :
    List PrivateSendingRate → List Scope → List (Option String) → Option PrivateSendingRate
unfolding over_targets
over_scopes rates [] ts = none
over_scopes rates (scope ∷ rest) ts =
    or_later (over_targets rates scope ts) (over_scopes rates rest ts)

unfoldable pub choose_rate :
    List PrivateSendingRate → ℕ → String → String → Option PrivateSendingRate
unfolding over_scopes
choose_rate rates collaboration_id send_mode target_currency =
    over_scopes rates (scopes collaboration_id send_mode) (targets target_currency)
