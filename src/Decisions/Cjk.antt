-- ===== src/Decisions/Cjk.antt =====
-- Switching off Vietnamese under a Chinese, Japanese or Korean layout: src/core/CjkSwitchDecision.h.
use nexus_key.Base.{
  ◌≡◌, refl, ◌∙◌, Bool, true, false, not, ◌&&◌, ◌||◌, if◌then◌else◌, List, [], ◌∷◌, all, arith,
}

pub data CjkTransition : Type 0 where
  no_transition enter_cjk leave_cjk : CjkTransition

pub data CjkBeep : Type 0 where
  quiet ok asterisk : CjkBeep

pub record CjkSwitchInputs : Type 0 where
  pub is_compatible_now : Bool
  pub layout_suppressed : Bool
  pub mode_before_cjk : Bool
  pub vietnamese_mode : Bool
  pub is_excluded : Bool
  pub is_forced_vietnamese : Bool
  pub cjk_auto_switch_enabled : Bool

pub record CjkSwitchOutputs : Type 0 where
  pub transition : CjkTransition
  pub new_layout_suppressed : Bool
  pub new_mode_before_cjk : Bool
  pub new_vietnamese_mode : Bool
  pub need_commit_composition : Bool
  pub need_notify_mode : Bool
  pub beep : CjkBeep

abbrev differ : Bool → Bool → Bool
differ true b = not b
differ false b = b

unfoldable pub decide_cjk_switch : CjkSwitchInputs → CjkSwitchOutputs
decide_cjk_switch i =
    let out : CjkSwitchOutputs = record {
      transition = no_transition;
      new_layout_suppressed = i.layout_suppressed;
      new_mode_before_cjk = i.mode_before_cjk;
      new_vietnamese_mode = i.vietnamese_mode;
      need_commit_composition = false;
      need_notify_mode = false;
      beep = quiet;
    } in
    if not i.cjk_auto_switch_enabled
    then out
    else if i.is_excluded || i.is_forced_vietnamese
    then out
    else if not i.is_compatible_now && not i.layout_suppressed
    then record {
      transition = enter_cjk;
      new_layout_suppressed = true;
      new_mode_before_cjk = i.vietnamese_mode;
      new_vietnamese_mode = if i.vietnamese_mode then false else i.vietnamese_mode;
      need_commit_composition = true;
      need_notify_mode = i.vietnamese_mode;
      beep = if i.vietnamese_mode then asterisk else quiet;
    }
    else if i.is_compatible_now && i.layout_suppressed
    then (let changes = differ i.mode_before_cjk i.vietnamese_mode in
        record {
          transition = leave_cjk;
          new_layout_suppressed = false;
          new_mode_before_cjk = i.mode_before_cjk;
          new_vietnamese_mode = if changes then i.mode_before_cjk else i.vietnamese_mode;
          need_commit_composition = false;
          need_notify_mode = true;
          beep = if changes then (if i.mode_before_cjk then ok else asterisk) else quiet;
        })
    else out

-- What the caller keeps.
pub record Mode : Type 0 where
  pub layout_suppressed : Bool
  pub mode_before_cjk : Bool
  pub vietnamese_mode : Bool

-- A layout with the state of the gates, or a change of the mode by the user.
pub data Event : Type 0 where
  layout : Bool → Bool → Bool → Bool → Event
  chosen : Bool → Event

abbrev pub inputs : Mode → Bool → Bool → Bool → Bool → CjkSwitchInputs
inputs m compatible excluded forced enabled = record {
  is_compatible_now = compatible;
  layout_suppressed = m.layout_suppressed;
  mode_before_cjk = m.mode_before_cjk;
  vietnamese_mode = m.vietnamese_mode;
  is_excluded = excluded;
  is_forced_vietnamese = forced;
  cjk_auto_switch_enabled = enabled;
}

abbrev pub on_event : Mode → Event → Mode
on_event m (chosen v) = record m { vietnamese_mode = v }
on_event m (layout compatible excluded forced enabled) =
    let out = decide_cjk_switch (inputs m compatible excluded forced enabled) in
    record {
      layout_suppressed = out.new_layout_suppressed;
      mode_before_cjk = out.new_mode_before_cjk;
      vietnamese_mode = out.new_vietnamese_mode;
    }

abbrev pub on_events : Mode → List Event → Mode
on_events m [] = m
on_events m (e ∷ events) = on_events (on_event m e) events

-- An event that does not leave the suppressed layout.
abbrev pub stays : Event → Bool
stays (chosen v) = true
stays (layout compatible excluded forced enabled) =
    not compatible || excluded || forced || not enabled

suppressed-on_event :
    (m : Mode) (e : Event)
    → m.layout_suppressed ≡ true
    → stays e ≡ true
    → ((on_event m e).layout_suppressed ≡ true)
      × ((on_event m e).mode_before_cjk ≡ m.mode_before_cjk)
unfolding decide_cjk_switch
suppressed-on_event m (chosen v) s h = (s, refl)
suppressed-on_event m (layout compatible excluded forced enabled) s h = ground arith

suppressed-on_events :
    (m : Mode) (events : List Event)
    → m.layout_suppressed ≡ true
    → all stays events ≡ true
    → ((on_events m events).layout_suppressed ≡ true)
      × ((on_events m events).mode_before_cjk ≡ m.mode_before_cjk)
suppressed-on_events m [] s h = (s, refl)
suppressed-on_events m (e ∷ events) s h =
    let f = suppressed-on_event m e s (ground arith) in
    let r = suppressed-on_events (on_event m e) events f.0 (ground arith) in (r.0, r.1 ∙ f.1)

enters :
    (m : Mode)
    → m.layout_suppressed ≡ false
    → let e = on_event m (layout false false false true) in
      (e.layout_suppressed ≡ true)
      × (e.mode_before_cjk ≡ m.vietnamese_mode)
      × (e.vietnamese_mode ≡ false)
unfolding decide_cjk_switch
enters m s = ground arith

leaves :
    (m : Mode)
    → m.layout_suppressed ≡ true
    → let l = on_event m (layout true false false true) in
      (l.layout_suppressed ≡ false) × (l.vietnamese_mode ≡ m.mode_before_cjk)
unfolding decide_cjk_switch
leaves m s = ground arith

-- Where no layout is suppressed, entering a CJK layout with the gates open switches to English. Then,
-- after any changes of the mode by the user and any events that do not leave the layout with the
-- gates open, leaving it with the gates open restores the mode from before.
pub enter-leave :
    (m : Mode) (events : List Event)
    → m.layout_suppressed ≡ false
    → all stays events ≡ true
    → let entered = on_event m (layout false false false true) in
      let left = on_event (on_events entered events) (layout true false false true) in
      (entered.vietnamese_mode ≡ false)
      × (left.layout_suppressed ≡ false)
      × (left.vietnamese_mode ≡ m.vietnamese_mode)
enter-leave m events s h =
    let e = enters m s in
    let r = suppressed-on_events (on_event m (layout false false false true)) events e.0 h in
    let l = leaves (on_events (on_event m (layout false false false true)) events) r.0 in
    (e.2, l.0, l.1 ∙ r.1 ∙ e.1)
