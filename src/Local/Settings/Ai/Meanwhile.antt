-- ===== src/Local/Settings/Ai/Meanwhile.antt =====
-- What the tracking server's thread can and cannot change while set_ai_function waits.
use mavcam.Prelude.{
  ◌≡◌, ◌∙◌, refl, sym, ap, Bool, true, false, none, some, String, List, [], ◌∷◌, insert,
  if◌then◌else◌, if_rule, subst, arith,
}
use mavcam.Tracking.Frame.{TrackingFrame}
use mavcam.Tracking.Server.{Net, TrackingServer, ThreadAct, listened, accepted, disconnected, stop}
use mavcam.Local.Device.{Device}
use mavcam.Local.State.{Local, call, set_entry}
use mavcam.Prelude.Text.{append_text}
use mavcam.Local.Settings.Ai.{
  Tracker, act, acts, meanwhile, stop_server, stop_service, clear_tracking_frame, ai_off,
}

-- The socket is set up wherever the thread tries it.
unfoldable pub all_set_up : List ThreadAct → Bool
all_set_up [] = true
all_set_up (ThreadAct.sets_up none ∷ rest) = false
all_set_up (_ ∷ rest) = all_set_up rest

-- No frame comes.
unfoldable pub is_silent : List ThreadAct → Bool
is_silent [] = true
is_silent (ThreadAct.reports frame ∷ rest) = false
is_silent (_ ∷ rest) = is_silent rest

-- No frame comes but this one.
unfoldable pub OnlyReports : TrackingFrame → List ThreadAct → Type 0
OnlyReports frame [] = Unit {0}
OnlyReports frame (ThreadAct.reports now ∷ rest) = (now ≡ frame) × OnlyReports frame rest
OnlyReports frame (_ ∷ rest) = OnlyReports frame rest

-- What is left of the frame: this one.
pub record Keeps (frame now : TrackingFrame) (has : Bool) : Type 0 where
  pub same : now ≡ frame
  pub there : has ≡ true

module _ {W : Type 0} (net : Net W) where
  acts-idle :
      (list : List ThreadAct) (t : Tracker W) → t.server.running ≡ false → acts net list t ≡ t
  unfolding acts
  acts-idle [] t idle = refl
  acts-idle (a ∷ rest) t idle =
      ap (λ test. acts net rest (if test then act net a t else t)) idle ∙ acts-idle rest t idle

  act-life :
      (a : ThreadAct) (t : Tracker W)
      → all_set_up (a ∷ []) ≡ true
      → ((act net a t).server.running ≡ t.server.running)
        × ((act net a t).server.joinable ≡ t.server.joinable)
  unfolding act all_set_up listened accepted disconnected
  act-life (ThreadAct.sets_up none) t up = absurd (ground arith)
  act-life (ThreadAct.sets_up (some fd)) t up = (refl, refl)
  act-life (ThreadAct.connects fd) t up = (ground arith, ground arith)
  act-life (ThreadAct.leaves fd) t up = (ground arith, ground arith)
  act-life (ThreadAct.reports frame) t up = (refl, refl)

  all_set_up-head :
      (a : ThreadAct) (rest : List ThreadAct)
      → all_set_up (a ∷ rest) ≡ true
      → (all_set_up (a ∷ []) ≡ true) × (all_set_up rest ≡ true)
  unfolding all_set_up
  all_set_up-head (ThreadAct.sets_up none) rest up = absurd (ground arith)
  all_set_up-head (ThreadAct.sets_up (some fd)) rest up = (refl, up)
  all_set_up-head (ThreadAct.connects fd) rest up = (refl, up)
  all_set_up-head (ThreadAct.leaves fd) rest up = (refl, up)
  all_set_up-head (ThreadAct.reports frame) rest up = (refl, up)

  acts-life :
      (list : List ThreadAct) (t : Tracker W)
      → all_set_up list ≡ true
      → ((acts net list t).server.running ≡ t.server.running)
        × ((acts net list t).server.joinable ≡ t.server.joinable)
  unfolding acts
  acts-life [] t up = (refl, refl)
  acts-life (a ∷ rest) t up =
      let (first, more) = all_set_up-head a rest up in
      let now = act-life a t first in
      let next = if t.server.running then act net a t else t in
      let later = acts-life rest next more in (ground arith, ground arith)

  acts-silent :
      (list : List ThreadAct) (t : Tracker W)
      → is_silent list ≡ true
      → (acts net list t).has_frame ≡ t.has_frame
  unfolding acts act is_silent
  acts-silent [] t quiet = refl
  acts-silent (ThreadAct.sets_up fd ∷ rest) t quiet =
      acts-silent rest (if t.server.running then act net (ThreadAct.sets_up fd) t else t) quiet
      ∙ ground arith
  acts-silent (ThreadAct.connects fd ∷ rest) t quiet =
      acts-silent rest (if t.server.running then act net (ThreadAct.connects fd) t else t) quiet
      ∙ ground arith
  acts-silent (ThreadAct.leaves fd ∷ rest) t quiet =
      acts-silent rest (if t.server.running then act net (ThreadAct.leaves fd) t else t) quiet
      ∙ ground arith
  acts-silent (ThreadAct.reports frame ∷ rest) t quiet = absurd (ground arith)

  pub acts-Keeps :
      (frame : TrackingFrame) (list : List ThreadAct) (t : Tracker W)
      → OnlyReports frame list
      → Keeps frame t.frame t.has_frame
      → let after = acts net list t in Keeps frame after.frame after.has_frame
  unfolding acts act OnlyReports
  acts-Keeps frame [] t only kept = kept
  acts-Keeps frame (ThreadAct.sets_up fd ∷ rest) t only kept =
      acts-Keeps frame rest (if t.server.running then act net (ThreadAct.sets_up fd) t else t) only
        (if_rule (λ (t : Tracker W). Keeps frame t.frame t.has_frame) t.server.running kept kept)
  acts-Keeps frame (ThreadAct.connects fd ∷ rest) t only kept =
      acts-Keeps frame rest (if t.server.running then act net (ThreadAct.connects fd) t else t) only
        (if_rule (λ (t : Tracker W). Keeps frame t.frame t.has_frame) t.server.running kept kept)
  acts-Keeps frame (ThreadAct.leaves fd ∷ rest) t only kept =
      acts-Keeps frame rest (if t.server.running then act net (ThreadAct.leaves fd) t else t) only
        (if_rule (λ (t : Tracker W). Keeps frame t.frame t.has_frame) t.server.running kept kept)
  acts-Keeps frame (ThreadAct.reports now ∷ rest) t (same, only) kept =
      acts-Keeps frame rest (if t.server.running then act net (ThreadAct.reports now) t else t) only
        (if_rule (λ (t : Tracker W). Keeps frame t.frame t.has_frame) t.server.running
          record { same = same; there = refl } kept)

module _ {W F : Type 0} (d : Device W F) where
  -- The socket of the tracking server can always be set up, and no frame comes during a call.
  abbrev pub SetsUp : Type 0
  SetsUp = (w : W) → all_set_up (d.host.thread_acts w).0 ≡ true

  abbrev pub Silent : Type 0
  Silent = (w : W) → is_silent (d.host.thread_acts w).0 ≡ true

  abbrev tracker : Local W F → Tracker W
  tracker s = record {
    server = s.tracking_server;
    frame = s.tracking_frame;
    has_frame = s.has_tracking_frame;
    world = (d.host.thread_acts s.world).1;
  }

  pub meanwhile-idle :
      (s : Local W F)
      → s.tracking_server.running ≡ false
      → (meanwhile d s).tracking_server ≡ s.tracking_server
  unfolding meanwhile
  meanwhile-idle s idle =
      ap (λ t. t.server) (acts-idle d.host.net (d.host.thread_acts s.world).0 (tracker s) idle)

  pub meanwhile-life :
      (s : Local W F)
      → SetsUp
      → ((meanwhile d s).tracking_server.running ≡ s.tracking_server.running)
        × ((meanwhile d s).tracking_server.joinable ≡ s.tracking_server.joinable)
  unfolding meanwhile
  meanwhile-life s up = acts-life d.host.net (d.host.thread_acts s.world).0 (tracker s) (up s.world)

  -- No frame comes while the client waits but this one.
  abbrev pub SendsOnly : TrackingFrame → Type 0
  SendsOnly frame = (w : W) → OnlyReports frame (d.host.thread_acts w).0

  pub meanwhile-Keeps :
      (frame : TrackingFrame)
      → SendsOnly frame
      → (s : Local W F) → Keeps frame s.tracking_frame s.has_tracking_frame
      → Keeps frame (meanwhile d s).tracking_frame (meanwhile d s).has_tracking_frame
  unfolding meanwhile
  meanwhile-Keeps frame only s kept =
      acts-Keeps d.host.net frame (d.host.thread_acts s.world).0 (tracker s) (only s.world) kept

  pub meanwhile-reported :
      (s : Local W F) (frame : TrackingFrame) (rest : List ThreadAct)
      → SendsOnly frame
      → s.tracking_server.running ≡ true
      → (d.host.thread_acts s.world).0 ≡ ThreadAct.reports frame ∷ rest
      → Keeps frame (meanwhile d s).tracking_frame (meanwhile d s).has_tracking_frame
  unfolding meanwhile acts act OnlyReports
  meanwhile-reported s frame rest only runs comes =
      let (_, later) = subst (OnlyReports frame) comes (only s.world) in
      subst (λ list. let t = acts d.host.net list (tracker s) in Keeps frame t.frame t.has_frame)
        (sym comes)
        (acts-Keeps d.host.net frame rest
          (if s.tracking_server.running
            then act d.host.net (ThreadAct.reports frame) (tracker s)
            else tracker s)
          later
          (subst
            (λ up.
              let t =
                if up then act d.host.net (ThreadAct.reports frame) (tracker s) else tracker s in
              Keeps frame t.frame t.has_frame)
            (sym runs) record { same = refl; there = refl }))

  pub meanwhile-silent :
      (s : Local W F) → Silent → (meanwhile d s).has_tracking_frame ≡ s.has_tracking_frame
  unfolding meanwhile
  meanwhile-silent s quiet =
      acts-silent d.host.net (d.host.thread_acts s.world).0 (tracker s) (quiet s.world)

stop-down : (t : TrackingServer) → (stop t).running ≡ false
unfolding stop
stop-down t = ground arith

stop-joined : (t : TrackingServer) → t.joinable ≡ t.running → (stop t).joinable ≡ false
unfolding stop
stop-joined t joined = ground arith

stop-idle : (t : TrackingServer) → t.running ≡ false → stop t ≡ t
unfolding stop
stop-idle t idle = ground arith

-- A client after the AI function was turned off: what was not touched, and the server.
pub record TurnedOff {W F : Type 0} (s t : Local W F) : Type 0 where
  pub camera : t.has_mav_camera ≡ s.has_mav_camera
  pub ir : t.has_ir_camera ≡ s.has_ir_camera
  pub render : t.has_render_bridge ≡ s.has_render_bridge
  pub storage : t.has_storage_manager ≡ s.has_storage_manager
  pub handles : t.handles ≡ s.handles
  pub settings : t.settings ≡ insert "CAM_AI_FUNC" "0" s.settings
  pub render_mode : t.render_mode ≡ s.render_mode
  pub down : t.tracking_server.running ≡ false

module _ {W F : Type 0} (d : Device W F) where
  -- After the shell command, before its time is over.
  abbrev told : String → Local W F → Local W F
  told service s = (call (d.host.system (append_text "systemctl stop " service)) s).1

  pub stop_service-idle :
      (service : String) (s : Local W F)
      → s.tracking_server.running ≡ false
      → (stop_service d service s).tracking_server ≡ s.tracking_server
  unfolding stop_service
  stop_service-idle service s idle = meanwhile-idle d (told service s) idle

  pub stop_service-life :
      (service : String) (s : Local W F)
      → SetsUp d
      → ((stop_service d service s).tracking_server.running ≡ s.tracking_server.running)
        × ((stop_service d service s).tracking_server.joinable ≡ s.tracking_server.joinable)
  unfolding stop_service
  stop_service-life service s up = meanwhile-life d (told service s) up

  pub stop_service-silent :
      (service : String) (s : Local W F)
      → Silent d
      → (stop_service d service s).has_tracking_frame ≡ s.has_tracking_frame
  unfolding stop_service
  stop_service-silent service s quiet = meanwhile-silent d (told service s) quiet

  pub stop_server-joined :
      (s : Local W F)
      → SetsUp d
      → s.tracking_server.joinable ≡ s.tracking_server.running
      → (stop_server d s).tracking_server.joinable ≡ false
  unfolding stop_server
  stop_server-joined s up joined =
      let (running, joinable) = meanwhile-life d s up in
      stop-joined (meanwhile d s).tracking_server (joinable ∙ joined ∙ sym running)

  pub stop_server-down : (s : Local W F) → (stop_server d s).tracking_server.running ≡ false
  unfolding stop_server
  stop_server-down s = stop-down (meanwhile d s).tracking_server

  pub stop_server-silent :
      (s : Local W F) → Silent d → (stop_server d s).has_tracking_frame ≡ s.has_tracking_frame
  unfolding stop_server
  stop_server-silent s quiet = meanwhile-silent d s quiet

  stop_server-idle :
      (s : Local W F)
      → s.tracking_server.running ≡ false
      → (stop_server d s).tracking_server ≡ s.tracking_server
  unfolding stop_server
  stop_server-idle s idle =
      let same = meanwhile-idle d s idle in ap stop same ∙ stop-idle s.tracking_server idle

  -- The two services are told to stop.
  abbrev services_stopped : Local W F → Local W F
  services_stopped s =
      stop_service d "object_tracking.service" (stop_service d "object_detection.service" s)

  pub ai_off-TurnedOff : (s : Local W F) → TurnedOff s (ai_off d (clear_tracking_frame d s))
  unfolding ai_off clear_tracking_frame stop_service stop_server meanwhile
  ai_off-TurnedOff s = record {
    camera = refl;
    ir = refl;
    render = refl;
    storage = refl;
    handles = refl;
    settings = refl;
    render_mode = refl;
    down =
        stop_server-down
          (services_stopped (set_entry "CAM_AI_FUNC" "0" (clear_tracking_frame d s)));
  }

  -- A server that does not run is left as it is.
  pub ai_off-idle :
      (s : Local W F)
      → s.tracking_server.running ≡ false
      → (ai_off d (clear_tracking_frame d s)).tracking_server ≡ s.tracking_server
  unfolding ai_off clear_tracking_frame
  ai_off-idle s idle =
      let cleared = set_entry "CAM_AI_FUNC" "0" (clear_tracking_frame d s) in
      let one = stop_service-idle "object_detection.service" cleared idle in
      let first = stop_service d "object_detection.service" cleared in
      let two =
        stop_service-idle "object_tracking.service" first (ap (λ t. t.running) one ∙ idle) in
      stop_server-idle (services_stopped cleared) (ap (λ t. t.running) (two ∙ one) ∙ idle)
      ∙ two
      ∙ one

  pub ai_off-joined :
      (s : Local W F)
      → SetsUp d
      → s.tracking_server.joinable ≡ s.tracking_server.running
      → (ai_off d (clear_tracking_frame d s)).tracking_server.joinable ≡ false
  unfolding ai_off clear_tracking_frame
  ai_off-joined s up joined =
      let cleared = set_entry "CAM_AI_FUNC" "0" (clear_tracking_frame d s) in
      let one = stop_service-life "object_detection.service" cleared up in
      let first = stop_service d "object_detection.service" cleared in
      let two = stop_service-life "object_tracking.service" first up in
      stop_server-joined (services_stopped cleared) up
        (two.1 ∙ one.1 ∙ joined ∙ sym one.0 ∙ sym two.0)

  pub ai_off-silent :
      (s : Local W F) → Silent d → (ai_off d (clear_tracking_frame d s)).has_tracking_frame ≡ false
  unfolding ai_off clear_tracking_frame
  ai_off-silent s quiet =
      let cleared = set_entry "CAM_AI_FUNC" "0" (clear_tracking_frame d s) in
      let first = stop_service d "object_detection.service" cleared in
      stop_server-silent (services_stopped cleared) quiet
      ∙ stop_service-silent "object_tracking.service" first quiet
      ∙ stop_service-silent "object_detection.service" cleared quiet
