-- ===== src/Audit.antt =====
-- app/services/audit_service.py `log_action` and notification_service.py `notify`: what every
-- operation appends. The note of an audit row and the message of a notification are display text.
use d_transfert_backend.Base.{ℕ, String, Option, some, ◌++◌, ◌∷◌, []}
use d_transfert_backend.Models.{NotificationType}
use d_transfert_backend.Service.{Service, Done, modify}

unfoldable pub log_action_for : Option ℕ → ℕ → String → String → ℕ → Service Done
unfolding modify
log_action_for company_id user_id action entity_type entity_id = modify λ s. record s {
  audit_logs =
      s.audit_logs
      ++ record {
        company_id = company_id;
        user_id = some user_id;
        action = action;
        entity_type = entity_type;
        entity_id = entity_id;
      }
        ∷ [];
}

-- The call with a company.
unfoldable pub log_action : ℕ → ℕ → String → String → ℕ → Service Done
unfolding log_action_for modify
log_action company_id = log_action_for (some company_id)

unfoldable pub notify : ℕ → NotificationType → String → ℕ → Service Done
unfolding modify
notify company_id type link_type link_id = modify λ s. record s {
  notifications =
      s.notifications
      ++ record { company_id = company_id; type = type; link_type = link_type; link_id = link_id }
        ∷ [];
}
