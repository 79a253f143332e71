-- ===== src/Candidate/Lives.antt =====
-- What the lines of a driver, and the other threads between them, can do to the peer of
-- crates/tactus/src/bin/conformance-peer.rs.
use link_wire_rs.Common.{
  ◌≡◌, refl, List, [], ◌∷◌, Option, none, some, get_elem?, true, false, Bool-cases, inl, inr,
  if-intro,
}
use link_wire_rs.Common.Int.{ℤ, pos}
use link_wire_rs.LinkAudio.Timers.{whole_pass}
use link_wire_rs.Types.Id.{LinkId}
use link_wire_rs.Math.Float.{Float, IsClamped}
use link_wire_rs.Engine.State.{State}
use link_wire_rs.Link.Audio.{VisibleChannel, visible_channels}
use link_wire_rs.Runtime.Gateways.{automatic, disable}
use link_wire_rs.Runtime.Steps
use link_wire_rs.Runtime.Steps.{Reach, here, next}
use link_wire_rs.Runtime.House.{life-IsHouse, life-IsClamped}
use link_wire_rs.Candidate.Commands.{
  Command, AudioCtl, World, System, enable, tempo, start, stop, startstop_sync, audio_enable,
  audio_disable, audio_subscribe, audio_unsubscribe, quit, unknown, publish_once, unsubscribe_old,
  subscribe_to, run_command, run_lines, is_quit, parse_line, main, Thread, receives, keeps_house,
  rescans, Turn, line, thread, after_pass, run_thread,
}
use link_wire_rs.Candidate.Commands as Commands

module _ {F : Float} {s : State} (sys : System) where
  publish_once-Reach :
      (o : Option LinkId) (ctl : AudioCtl) (st : State)
      → Reach F s st
      → Reach F s (publish_once F sys o ctl st).link
  publish_once-Reach none ctl st r = next r (Steps.published sys.env _)
  publish_once-Reach (some id) ctl st r = r

  unsubscribe_old-Reach :
      (o : Option LinkId) (st : State) → Reach F s st → Reach F s (unsubscribe_old F sys o st)
  unsubscribe_old-Reach none st r = r
  unsubscribe_old-Reach (some old) st r = next r (Steps.unsubscribed sys.rank old)

  subscribe_to-Reach :
      (o : Option VisibleChannel) (w : World)
      → Reach F s w.link
      → Reach F s (subscribe_to F sys o w).link
  subscribe_to-Reach none w r = r
  subscribe_to-Reach (some ch) w r =
      next (unsubscribe_old-Reach w.ctl.subscribed w.link r)
        (Steps.subscribed sys.rank sys.env ch.id _)

  run_command-Reach :
      (c : Command F) (w : World) → Reach F s w.link → Reach F s (run_command F sys c w).link
  unfolding run_command
  run_command-Reach enable w r =
      next r (Steps.enabled sys.sockets automatic (sys.scan w.link.epoch) sys.env)
  run_command-Reach Commands.disable w r = next r Steps.disabled
  run_command-Reach (tempo bpm) w r = next r (Steps.tempo_set sys.env bpm)
  run_command-Reach start w r = next r (Steps.playing_set sys.env true)
  run_command-Reach stop w r = next r (Steps.playing_set sys.env false)
  run_command-Reach (startstop_sync on) w r = next r (Steps.sync_set on)
  run_command-Reach audio_enable w r =
      publish_once-Reach w.ctl.published w.ctl _ (next r (Steps.audio_enabled sys.env _))
  run_command-Reach audio_disable w r = next r (Steps.audio_disabled sys.env)
  run_command-Reach (audio_subscribe index) w r =
      subscribe_to-Reach (get_elem? (visible_channels w.link) index) w r
  run_command-Reach audio_unsubscribe w r = unsubscribe_old-Reach w.ctl.subscribed w.link r
  run_command-Reach quit w r = r
  run_command-Reach unknown w r = r

disable-closed : (st : State) → (disable st).enabled ≡ false
unfolding disable
disable-closed st = elim (Bool-cases st.enabled) [ inl on ↦ rw on refl | inr off ↦ rw off refl ]

-- Whichever of two worlds it is, the peer was reached and is not enabled.
abbrev AtEnd : (F : Float) → State → World → Type 0
AtEnd F s w = Reach F s w.link × (w.link.enabled ≡ false)

run_thread-Reach :
    {F : Float} {s : State} (sys : System) (t : Thread) (st : State)
    → Reach F s st
    → Reach F s (run_thread F sys t st)
unfolding run_thread
run_thread-Reach sys (receives gw epoch src buf role) st r =
    next r (Steps.received sys.env gw epoch src buf role)
run_thread-Reach sys (rescans epoch scan failed) st r =
    next r (Steps.rescanned sys.sockets sys.env epoch scan failed)
run_thread-Reach {F = F} {s = s} sys keeps_house st r =
    passing (whole_pass sys.rank sys.env st) refl
  where
    passing :
        (o : Option (ℤ × State))
        → whole_pass sys.rank sys.env st ≡ o
        → Reach F s (after_pass F sys o st)
    passing none e = r
    passing (some (due, st')) e = next r (Steps.passed sys.rank sys.env e)

run_lines-AtEnd :
    {F : Float} {s : State} (sys : System) (turns : List Turn) (w : World)
    → Reach F s w.link
    → AtEnd F s (run_lines F sys turns w)
unfolding run_lines
run_lines-AtEnd sys [] w r = (next r Steps.disabled, disable-closed w.link)
run_lines-AtEnd {F = F} {s = s} sys (line cs ∷ turns) w r =
    if-intro (AtEnd F s) (is_quit F sys (parse_line F cs)) _ _
      (λ over. (next r Steps.disabled, disable-closed w.link))
      (λ more.
        run_lines-AtEnd sys turns (run_command F sys (parse_line F cs) w)
          (run_command-Reach sys (parse_line F cs) w r))
run_lines-AtEnd {F = F} sys (thread t ∷ turns) w r =
    run_lines-AtEnd sys turns (record w { link = run_thread F sys t w.link })
      (run_thread-Reach sys t w.link r)

-- Whatever lines the driver writes, whatever the peer's other threads do between them, by whatever arithmetic of
-- doubles and whatever the system answers: when the program ends, its peer has left the network, so that no gateway
-- is open, and its tempo is within its bounds.
main-closed :
    (F : Float) (sys : System) (node : LinkId) (turns : List Turn)
    → ((main F sys node turns).link.enabled ≡ false)
      × ((main F sys node turns).link.gateways ≡ [])
      × IsClamped (main F sys node turns).link.timeline.tempo
unfolding main
main-closed F sys node turns =
    let (r, off) = run_lines-AtEnd sys turns _ here in
    let (house, budget) = life-IsHouse F (F.of (pos 120)) node _ r in
    (off, house.closed off, (life-IsClamped F (F.of (pos 120)) node _ r).0)
