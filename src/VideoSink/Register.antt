-- ===== src/VideoSink/Register.antt =====
-- The sink on D-Bus, through every sequence of changes of state and settings.
use pulsevideo.Base.{
  ℕ, ◌≡◌, ◌≢◌, refl, ◌∙◌, subst, sym, Bool, true, false, not, if◌then◌else◌, if_cases, Option, none,
  some,
}
use pulsevideo.Base.Element.{StateChangeReturn, change_failure, is_failure}
use pulsevideo.VideoSink.{
  VideoSink, Dbus, register_on, register_dbus, deregister_dbus, Transition, ready_to_paused,
  paused_to_ready, other_transition, change_state, set_dbus, set_bus_name, set_object_path,
  set_caps,
}

-- Where the element is: below PAUSED; in PAUSED or above; or still there after a change from PAUSED to
-- READY has failed, which leaves the state as it was.
pub data Level : Type 0 where
  ready paused withdrawn : Level

-- Below PAUSED the object is not exported and no name is owned; from PAUSED on the object is exported
-- on the connection in use, and a name is owned, until a change to READY is tried.
unfoldable pub IsPublic : Level → VideoSink → Type 0
IsPublic ready sink = (sink.exported ≡ none) × (sink.bus_name_token ≡ 0)
IsPublic paused sink =
    (c : ℕ) × (p : ℕ) × (sink.connection_in_use ≡ some c)
    × (sink.exported ≡ some (c, p))
    × (sink.bus_name_token ≢ 0)
IsPublic withdrawn sink = (sink.exported ≡ none) × (sink.bus_name_token ≡ 0)

abbrev SameDbus : VideoSink → VideoSink → Type 0
SameDbus s t =
    (t.connection_in_use ≡ s.connection_in_use)
    × (t.exported ≡ s.exported)
    × (t.bus_name_token ≡ s.bus_name_token)

same-IsPublic : (l : Level) (s t : VideoSink) → SameDbus s t → IsPublic l s → IsPublic l t
unfolding IsPublic
same-IsPublic ready s t e h = (e.1 ∙ h.0, e.2 ∙ h.1)
same-IsPublic withdrawn s t e h = (e.1 ∙ h.0, e.2 ∙ h.1)
same-IsPublic paused s t e h = (h.0, h.1, e.0 ∙ h.2, e.1 ∙ h.3, λ z. h.4 (sym e.2 ∙ z))

-- What a change to PAUSED leaves.
abbrev Ended : StateChangeReturn × VideoSink → Type 0
Ended r = IsPublic (if is_failure r.0 then ready else paused) r.1

-- A registration that fails leaves the object unpublished, and one that works publishes it.
abbrev Registered : Bool × VideoSink → Type 0
Registered r = IsPublic (if r.0 then paused else ready) r.1

register_on-Registered :
    (bus : Dbus) (o : Option ℕ) (s : VideoSink)
    → ((c n : ℕ) → bus.own_name c n ≢ 0)
    → IsPublic ready s
    → Registered (register_on bus o s)
unfolding register_on IsPublic
register_on-Registered bus none s named h = h
register_on-Registered bus (some c) s named h =
    if_cases Registered (not (bus.exports c s.object_path)) (λ t. h)
      (λ f. (c, s.object_path, refl, refl, named c s.bus_name))

module _ (bus : Dbus) (parent : Transition → VideoSink → StateChangeReturn × VideoSink) where
  -- What can happen to the sink at a level, and the level after it.
  pub data Step (l : Level) (s : VideoSink) : Level → VideoSink → Type 0 where
    up :
        (l ≡ ready)
        → is_failure (change_state bus parent ready_to_paused s).0 ≡ false
        → Step l s paused (change_state bus parent ready_to_paused s).1
    up_failed :
        (l ≡ ready)
        → is_failure (change_state bus parent ready_to_paused s).0 ≡ true
        → Step l s ready (change_state bus parent ready_to_paused s).1
    down :
        (l ≢ ready)
        → is_failure (change_state bus parent paused_to_ready s).0 ≡ false
        → Step l s ready (change_state bus parent paused_to_ready s).1
    down_failed :
        (l ≢ ready)
        → is_failure (change_state bus parent paused_to_ready s).0 ≡ true
        → Step l s withdrawn (change_state bus parent paused_to_ready s).1
    other : Step l s l (change_state bus parent other_transition s).1
    setting_dbus : (c : Option ℕ) → Step l s l (set_dbus c s)
    setting_name : (n : ℕ) → Step l s l (set_bus_name n s)
    setting_path : (ok : ℕ → Bool) (p : ℕ) → Step l s l (set_object_path ok p s)
    setting_caps : (normalise : ℕ → ℕ) (c : ℕ) → Step l s l (set_caps normalise c s)

  pub data Reach (l : Level) (s : VideoSink) : Level → VideoSink → Type 0 where
    here : Reach l s l s
    next : {m n : Level} {t u : VideoSink} → Reach l s m t → Step m t n u → Reach l s n u

  module _ (named : (c n : ℕ) → bus.own_name c n ≢ 0)
      (kept : (t : Transition) (s : VideoSink) → SameDbus s (parent t s).1) where
    by_result :
        (result : StateChangeReturn) (r : Bool × VideoSink)
        → is_failure result ≡ false
        → Registered r
        → Ended (if not r.0 then (change_failure, r.1) else (result, r.1))
    by_result result (true, v) f h = rw f h
    by_result result (false, v) f h = h

    up-Ended :
        (s : VideoSink) → IsPublic ready s → Ended (change_state bus parent ready_to_paused s)
    unfolding change_state register_dbus
    up-Ended s h =
        let after = same-IsPublic ready s (parent ready_to_paused s).1 (kept ready_to_paused s) h in
        if_cases Ended (is_failure (parent ready_to_paused s).0) (λ t. rw t after)
          (λ f. by_result _ _ f (register_on-Registered bus _ _ named after))

    down-IsPublic : (s : VideoSink) → IsPublic ready (change_state bus parent paused_to_ready s).1
    unfolding change_state deregister_dbus IsPublic
    down-IsPublic s =
        if_cases (λ (r : StateChangeReturn × VideoSink). IsPublic ready r.1)
          (is_failure (parent paused_to_ready (deregister_dbus s)).0) (λ t. gone) (λ f. gone)
      where
        gone : IsPublic ready (parent paused_to_ready (deregister_dbus s)).1
        gone =
            same-IsPublic ready (deregister_dbus s) (parent paused_to_ready (deregister_dbus s)).1
              (kept paused_to_ready (deregister_dbus s)) (refl, refl)

    other-IsPublic :
        (l : Level) (s : VideoSink)
        → IsPublic l s
        → IsPublic l (change_state bus parent other_transition s).1
    unfolding change_state
    other-IsPublic l s h =
        if_cases (λ (r : StateChangeReturn × VideoSink). IsPublic l r.1)
          (is_failure (parent other_transition s).0) (λ t. after) (λ f. after)
      where
        after : IsPublic l (parent other_transition s).1
        after = same-IsPublic l s _ (kept other_transition s) h

    Step-IsPublic :
        {l : Level} {s : VideoSink} {m : Level} {t : VideoSink}
        → Step l s m t
        → IsPublic l s
        → IsPublic m t
    unfolding set_dbus set_bus_name set_object_path set_caps IsPublic
    Step-IsPublic {l} {s} (up e f) h =
        subst
          (λ b.
            IsPublic (if b then ready else paused) (change_state bus parent ready_to_paused s).1)
          f (up-Ended s (subst (λ k. IsPublic k s) e h))
    Step-IsPublic {l} {s} (up_failed e f) h =
        subst
          (λ b.
            IsPublic (if b then ready else paused) (change_state bus parent ready_to_paused s).1)
          f (up-Ended s (subst (λ k. IsPublic k s) e h))
    Step-IsPublic {l} {s} (down n f) h = down-IsPublic s
    Step-IsPublic {l} {s} (down_failed n f) h = down-IsPublic s
    Step-IsPublic {l} {s} other h = other-IsPublic l s h
    Step-IsPublic {l} {s} (setting_dbus c) h = same-IsPublic l s _ (refl, refl, refl) h
    Step-IsPublic {l} {s} (setting_name n) h = same-IsPublic l s _ (refl, refl, refl) h
    Step-IsPublic {l} {s} (setting_path ok p) h =
        if_cases (IsPublic l) (ok p) (λ t. same-IsPublic l s _ (refl, refl, refl) h) (λ f. h)
    Step-IsPublic {l} {s} (setting_caps normalise c) h = same-IsPublic l s _ (refl, refl, refl) h

    -- Where an owned name has a token that is not 0, and the parent class leaves the D-Bus side of the
    -- sink alone, after any sequence of changes of state, failed ones included, and of settings, the
    -- sink is published in PAUSED and above, and not below, if it was so before; but where a change
    -- from PAUSED to READY has failed, the sink, which is still in PAUSED, is not published any more.
    pub Reach-IsPublic :
        {l : Level} {s : VideoSink} {m : Level} {t : VideoSink}
        → Reach l s m t
        → IsPublic l s
        → IsPublic m t
    Reach-IsPublic here h = h
    Reach-IsPublic (next r st) h = Step-IsPublic st (Reach-IsPublic r h)
