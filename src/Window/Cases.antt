-- ===== src/Window/Cases.antt =====
-- The sections that branch, by their results (api/service.go, api/take_back.go).
use spoond.Base.{ℕ, ◌≡◌, Bool, true, false, not, ◌&&◌, ◌||◌, some, if_cases, if◌then◌else◌}
use spoond.Base.Text.{Text}
use spoond.Window.{
  is_pinned, runs_job, PauseKind, Ended, done, failed, refused, undoing, ending, Scene, move,
  after_body, suspend, wake_up, body_ends, settle_take_back, resumed_to,
}

module _ {κ} (P : Scene → Type κ) (k : ℕ) (s : Scene) where
  pub body_ends_cases :
      (kind : PauseKind)
      → (s.lease.released ≡ true → P (move k (ending failed) s.lease s))
      → (s.lease.released ≡ false → P (move k (after_body kind) (suspend kind s.lease) s))
      → P (body_ends kind k s)
  body_ends_cases kind gone here =
      if_cases P s.lease.released (move k (ending failed) s.lease s)
        (move k (after_body kind) (suspend kind s.lease) s) gone here

  pub resumed_cases :
      (gone result : Ended)
      → (s.lease.released ≡ true → P (move k (ending gone) s.lease s))
      → (s.lease.released ≡ false → P (move k (ending result) (wake_up s.lease) s))
      → P (resumed_to gone result k s)
  resumed_cases gone result f g =
      if_cases P s.lease.released (move k (ending gone) s.lease s)
        (move k (ending result) (wake_up s.lease) s) f g

  pub settle_cases :
      (r : Text) (t : Bool)
      → ((not s.lease.is_suspended || s.lease.released) ≡ true
          → P (move k (ending refused) s.lease s))
      → (((is_pinned s.lease && not t) || runs_job s.lease) ≡ true → P (move k undoing s.lease s))
      → ((not s.lease.is_suspended || s.lease.released) ≡ false
          → ((is_pinned s.lease && not t) || runs_job s.lease) ≡ false
          → P (move k (ending done) (record s.lease { taken_for = some r }) s))
      → P (settle_take_back r t k s)
  settle_cases r t late won free =
      let stamped = move k (ending done) (record s.lease { taken_for = some r }) s in
      let guarded = (is_pinned s.lease && not t) || runs_job s.lease in
      if_cases P (not s.lease.is_suspended || s.lease.released) (move k (ending refused) s.lease s)
        (if guarded then move k undoing s.lease s else stamped) late
        (λ a. if_cases P guarded (move k undoing s.lease s) stamped won (free a))
