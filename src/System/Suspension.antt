-- ===== src/System/Suspension.antt =====
-- No history of the program suspends or archives a collaboration.
use d_transfert_backend.Base.{ℕ, ◌≡◌, true, false, Bool, nat_eq, if◌then◌else◌, List, [], ◌∷◌, ◌++◌}
use d_transfert_backend.Models.{Collaboration, CollaborationRateHistory, collaboration_keyed}
use d_transfert_backend.Table.{update_row}
use d_transfert_backend.Database.{Db}
use d_transfert_backend.Service.Keeps.{Keeps, Keeps-modify}
use d_transfert_backend.Frame.{Frame}
use d_transfert_backend.Frame.Plain.{Elsewhere, Elsewhere-frame}
use d_transfert_backend.Collaborations.{add_collaboration, change_collaboration}
use d_transfert_backend.Collaborations.Keeps.{
  is_live, accept_collaboration-Keeps, reject_collaboration-Keeps, cancel_collaboration-Keeps,
  update_collaboration-Keeps, accept_rate_proposal-Keeps, suspend_collaboration-Keeps,
  archive_collaboration-Keeps,
}
use d_transfert_backend.Platform.Requests.{AllowsPlatform, quiet_platform, handle_platform-Keeps}
use d_transfert_backend.System.{Step, Steps}
use d_transfert_backend.System.Frames.{Allows}
use d_transfert_backend.System.Quiet.{
  quiet_wallets, quiet_transfers, quiet_payments, quiet_operations,
}
use d_transfert_backend.System.Histories.{handle-Keeps}

-- Every collaboration is pending, accepted, rejected or cancelled.
abbrev pub AllLive : List Collaboration → Type 0
AllLive [] = Unit
AllLive (c ∷ cs) = (is_live c.status ≡ true) × AllLive cs

AllLive-append :
    (cs : List Collaboration) (c : Collaboration)
    → AllLive cs
    → is_live c.status ≡ true
    → AllLive (cs ++ c ∷ [])
AllLive-append [] c h l = (l, tt)
AllLive-append (x ∷ cs) c (y, h) l = (y, AllLive-append cs c h l)

row_live :
    (b : Bool) (f : Collaboration → Collaboration) (c : Collaboration)
    → ((x : Collaboration) → is_live x.status ≡ true → is_live (f x).status ≡ true)
    → is_live c.status ≡ true
    → is_live (if b then f c else c).status ≡ true
row_live true f c k l = k c l
row_live false f c k l = l

AllLive-update :
    (i : ℕ) (f : Collaboration → Collaboration) (cs : List Collaboration)
    → ((x : Collaboration) → is_live x.status ≡ true → is_live (f x).status ≡ true)
    → AllLive cs
    → AllLive (update_row i f cs)
AllLive-update i f [] k h = tt
AllLive-update i f (c ∷ cs) k (l, h) = (row_live (nat_eq c.id i) f c k l, AllLive-update i f cs k h)

abbrev Live : Db → Type 0
Live = Elsewhere (λ ts ps cs rs qs os. AllLive cs)

Live-frame : Frame Live
Live-frame = Elsewhere-frame (λ ts ps cs rs qs os. AllLive cs)

add_collaboration-Live :
    (c : Collaboration) → is_live c.status ≡ true → Keeps Live (add_collaboration c)
unfolding add_collaboration
add_collaboration-Live c l = Keeps-modify _ (λ s h. AllLive-append s.collaborations c h l)

change_collaboration-Live :
    (i : ℕ) (f : Collaboration → Collaboration)
    → ((c : Collaboration) → (f c).id ≡ c.id)
    → ((c : Collaboration) → is_live c.status ≡ true → is_live (f c).status ≡ true)
    → Keeps Live (change_collaboration i f)
unfolding change_collaboration
change_collaboration-Live i f same k =
    Keeps-modify _ (λ s h. AllLive-update i f s.collaborations k h)

no_rates : (x : List CollaborationRateHistory) (s : Db) → Live s → Live (record s { rates = x })
no_rates x s h = h

Live-allows : Allows Live
Live-allows = record {
  frame = Live-frame;
  rates = no_rates;
  private_rates = λ x s h. h;
  suppliers = λ x s h. h;
  supplier_movements = λ x s h. h;
  operation_lines = λ x s h. h;
  system_logs = λ x s h. h;
  for_wallets = quiet_wallets Live-frame (λ x s h. h);
  for_transfers = quiet_transfers Live-frame (λ x s h. h);
  for_payments = quiet_payments Live-frame (λ x s h. h);
  for_operations = quiet_operations Live-frame (λ x s h. h) (λ x s h. h);
  for_collaborations = record {
    new_collaboration = add_collaboration-Live;
    accepted = λ c by i.
        accept_collaboration-Keeps Live-frame no_rates i (change_collaboration-Live i) c by;
    rejected = λ c by i.
        reject_collaboration-Keeps Live-frame no_rates i (change_collaboration-Live i) c by;
    cancelled = λ c by i.
        cancel_collaboration-Keeps Live-frame no_rates i (change_collaboration-Live i) c by;
    updated = λ c by i p.
        update_collaboration-Keeps Live-frame no_rates i (change_collaboration-Live i) c by p;
    new_rate = λ c by i j.
        accept_rate_proposal-Keeps Live-frame no_rates i (change_collaboration-Live i) c by j;
    suspended = suspend_collaboration-Keeps;
    archived = archive_collaboration-Keeps;
  };
}

Live-platform : AllowsPlatform Live
Live-platform =
    quiet_platform
      (record {
        fresh = λ s h. h;
        companies = λ x s h. h;
        overrides = λ x s h. h;
        otps = λ x s h. h;
        revoked_tokens = λ x s h. h;
        settings = λ x s h. h;
        subscriptions = λ x s h. h;
        system_logs = λ x s h. h;
        audit_logs = λ x s h. h;
      })
      (λ x s h. h)

-- If no collaboration is suspended or archived, none is after any history, in which no company
-- is deleted: the two states are not
-- reachable, although the service has a function for each.
pub no_suspension : {s t : Db} → AllLive s.collaborations → Steps s t → AllLive t.collaborations
no_suspension h Steps.start = h
no_suspension h (Steps.then {t = s} before (Step.request at r)) =
    handle-Keeps Live-allows at r s (no_suspension h before)
no_suspension h (Steps.then before (Step.clock now today)) = no_suspension h before
no_suspension h (Steps.then {t = s} before (Step.platform host at r)) =
    handle_platform-Keeps Live-platform host at r s (no_suspension h before)
no_suspension h (Steps.then before (Step.others p a n l)) = no_suspension h before
