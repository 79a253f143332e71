-- ===== src/Candidate/Commands.antt =====
-- The commands of crates/tactus/src/bin/conformance-peer.rs and what they do. A line is the list of its code points.
-- Between two commands the receivers, the housekeeping thread and the rescan thread of the peer may do any number of
-- steps; a step between two calls of one command is left out. So is the thread that prints the status and generates
-- a sine: all that it does to the peer is a write and a poll, which are calls of the application.
use Prim.Native.Char.{code}
use Prim.Native.String.{String}
use link_wire_rs.Common.{
  ℕ, ◌+◌, ◌-◌, ◌*◌, ◌^◌, List, [], ◌∷◌, ◌++◌, Option, none, some, get_elem?, Bool, true, false,
  ◌&&◌, ◌||◌, leb, ltb, ◌==◌, if◌then◌else◌,
}
use link_wire_rs.Common.Bytes.{bytes_eqb}
use link_wire_rs.Common.Int.{ℤ, pos}
use link_wire_rs.Types.Id.{LinkId}
use link_wire_rs.Types.Endpoint.{SocketAddr}
use link_wire_rs.Iface.Plan.{Interface}
use link_wire_rs.Math.Float.{Float, bpm_to_tempo}
use link_wire_rs.Engine.State.{State, Env, new}
use link_wire_rs.LinkAudio.Requests as Requests
use link_wire_rs.LinkAudio.Requests.{publish, subscribe, unsubscribe}
use link_wire_rs.Link.Calls.{set_tempo, set_is_playing, enable_start_stop_sync}
use link_wire_rs.Link.Queries.{subscribe_channel}
use link_wire_rs.Link.Audio.{VisibleChannel, visible_channels}
use link_wire_rs.LinkAudio.Timers.{whole_pass}
use link_wire_rs.Runtime.Gateways.{
  Role, Sockets, automatic, receive_from, rescan, enable as join_network, disable as leave_network,
}

abbrev pub codes : String → List ℕ
codes String.[] = []
codes (String.◌∷◌ c s) = code c ∷ codes s

-- White space of Unicode.
abbrev pub is_whitespace : ℕ → Bool
is_whitespace c =
    (leb 9 c && leb c 13)
    || c == 32
    || c == 133
    || c == 160
    || c == 5760
    || (leb 8192 c && leb c 8202)
    || c == 8232
    || c == 8233
    || c == 8239
    || c == 8287
    || c == 12288

abbrev pub flush : List ℕ → List (List ℕ) → List (List ℕ)
flush [] rest = rest
flush (c ∷ cs) rest = (c ∷ cs) ∷ rest

-- `split_whitespace`, `word` being the word so far.
unfoldable pub words_from : List ℕ → List ℕ → List (List ℕ)
words_from word [] = flush word []
words_from word (c ∷ cs) =
    let ended = flush word (words_from [] cs) in
    let more = words_from (word ++ (c ∷ [])) cs in if is_whitespace c then ended else more

abbrev pub is_digit : ℕ → Bool
is_digit c = leb 48 c && leb c 57

-- The value of digits that follow `n`, none past the range of a `usize`.
unfoldable pub digits : ℕ → List ℕ → Option ℕ
digits n [] = some n
digits n (c ∷ cs) =
    let rest = digits (n * 10 + (c - 48)) cs in
    if is_digit c && ltb (n * 10 + (c - 48)) (2 ^ 64) then rest else none

abbrev pub unsigned : List ℕ → Option ℕ
unsigned [] = none
unsigned (c ∷ cs) = digits 0 (c ∷ cs)

-- `str::parse` of a `usize`, which may have a plus.
unfoldable pub parse_usize : List ℕ → Option ℕ
parse_usize [] = none
parse_usize (c ∷ cs) = if c == b'+' then unsigned cs else unsigned (c ∷ cs)

pub data Command (F : Float) : Type 0 where
  enable : Command F
  disable : Command F
  tempo : F.Double → Command F
  start : Command F
  stop : Command F
  startstop_sync : Bool → Command F
  audio_enable : Command F
  audio_disable : Command F
  audio_subscribe : ℕ → Command F
  audio_unsubscribe : Command F
  quit : Command F
  unknown : Command F

abbrev pub head : List (List ℕ) → Option (List ℕ)
head [] = none
head (w ∷ ws) = some w

abbrev pub index_of : Option (List ℕ) → ℕ
index_of none = 0
index_of (some w) = elim (parse_usize w) [ none ↦ 0 | some n ↦ n ]

abbrev pub tempo_of : (F : Float) → Option (List ℕ) → Command F
tempo_of F none = unknown
tempo_of F (some w) = elim (F.parse w) [ none ↦ unknown | some bpm ↦ tempo bpm ]

abbrev pub sync_of : (F : Float) → Option (List ℕ) → Command F
sync_of F none = unknown
sync_of F (some w) = startstop_sync (bytes_eqb w (codes "1"))

unfoldable pub command : (F : Float) → List (List ℕ) → Command F
command F [] = unknown
command F (w ∷ ws) =
    if bytes_eqb w (codes "enable")
    then enable
    else if bytes_eqb w (codes "disable")
    then disable
    else if bytes_eqb w (codes "tempo")
    then tempo_of F (head ws)
    else if bytes_eqb w (codes "start")
    then start
    else if bytes_eqb w (codes "stop")
    then stop
    else if bytes_eqb w (codes "startstop-sync")
    then sync_of F (head ws)
    else if bytes_eqb w (codes "audio-enable")
    then audio_enable
    else if bytes_eqb w (codes "audio-disable")
    then audio_disable
    else if bytes_eqb w (codes "audio-subscribe")
    then audio_subscribe (index_of (head ws))
    else if bytes_eqb w (codes "audio-unsubscribe")
    then audio_unsubscribe
    else if bytes_eqb w (codes "quit")
    then quit
    else unknown

unfoldable pub parse_line : (F : Float) → List ℕ → Command F
parse_line F line = command F (words_from [] line)

pub record AudioCtl : Type 0 where
  pub published : Option LinkId
  pub subscribed : Option LinkId

-- The peer and what the program remembers.
pub record World : Type 0 where
  pub link : State
  pub ctl : AudioCtl

-- What the system answers: readings and ids, sockets, a scan for each epoch, and the order of path qualities.
pub record System : Type 0 where
  pub env : Env
  pub sockets : Sockets
  pub scan : ℕ → Option (List Interface)
  pub rank : List ℤ → ℤ

-- What the peer's other threads do: a receiver has a datagram, housekeeping makes a pass, or the rescan thread has a
-- scan, with the addresses whose sockets failed.
pub data Thread : Type 0 where
  receives : ℕ → ℕ → SocketAddr → List ℕ → Role → Thread
  keeps_house : Thread
  rescans : ℕ → Option (List Interface) → List ℕ → Thread

-- A line that the program reads, or a step of another thread between two lines.
pub data Turn : Type 0 where
  line : List ℕ → Turn
  thread : Thread → Turn

module _ (F : Float) (sys : System) where
  abbrev pub quantum : F.Double
  quantum = F.of (pos 4)

  -- Unless something is published, a channel is.
  abbrev pub publish_once : Option LinkId → AudioCtl → State → World
  publish_once (some id) ctl st = record { link = st; ctl = ctl }
  publish_once none ctl st =
      let (id, st') = publish sys.env (codes "tactus") st in
      record { link = st'; ctl = record ctl { published = id } }

  abbrev pub unsubscribe_old : Option LinkId → State → State
  unsubscribe_old none st = st
  unsubscribe_old (some old) st = unsubscribe sys.rank old st

  abbrev pub subscribe_to : Option VisibleChannel → World → World
  subscribe_to none w = w
  subscribe_to (some ch) w = record {
    link =
        subscribe_channel F sys.rank sys.env ch.id quantum
          (unsubscribe_old w.ctl.subscribed w.link);
    ctl = record w.ctl { subscribed = some ch.id };
  }

  -- `quit` and unknown commands do nothing.
  unfoldable pub run_command : Command F → World → World
  run_command enable w = record w {
    link = join_network sys.sockets automatic (sys.scan w.link.epoch) sys.env w.link;
  }
  run_command disable w = record w { link = leave_network w.link }
  run_command (tempo bpm) w = record w { link = set_tempo sys.env (bpm_to_tempo F bpm) w.link }
  run_command start w = record w { link = set_is_playing sys.env true w.link }
  run_command stop w = record w { link = set_is_playing sys.env false w.link }
  run_command (startstop_sync on) w = record w { link = enable_start_stop_sync on w.link }
  run_command audio_enable w =
      publish_once w.ctl.published w.ctl (Requests.enable sys.env (codes "tactus-peer") w.link)
  run_command audio_disable w = record {
    link = Requests.disable sys.env w.link;
    ctl = record { published = none; subscribed = none };
  }
  run_command (audio_subscribe index) w = subscribe_to (get_elem? (visible_channels w.link) index) w
  run_command audio_unsubscribe w = record {
    link = unsubscribe_old w.ctl.subscribed w.link;
    ctl = record w.ctl { subscribed = none };
  }
  run_command quit w = w
  run_command unknown w = w

  abbrev pub is_quit : Command F → Bool
  is_quit quit = true
  is_quit _ = false

  abbrev pub after_pass : Option (ℤ × State) → State → State
  after_pass none st = st
  after_pass (some (next, st')) st = st'

  -- What another thread does to the peer.
  unfoldable pub run_thread : Thread → State → State
  run_thread (receives gw epoch src buf role) st = receive_from sys.env gw epoch src buf role st
  run_thread keeps_house st = after_pass (whole_pass sys.rank sys.env st) st
  run_thread (rescans epoch scan failed) st = (rescan sys.sockets sys.env epoch scan failed st).1

  -- The loop over the lines, with what the other threads do between them, and the leave at its end.
  unfoldable pub run_lines : List Turn → World → World
  run_lines [] w = record w { link = leave_network w.link }
  run_lines (line cs ∷ turns) w =
      let rest = run_lines turns (run_command (parse_line F cs) w) in
      if is_quit (parse_line F cs) then record w { link = leave_network w.link } else rest
  run_lines (thread t ∷ turns) w = run_lines turns (record w { link = run_thread t w.link })

  -- The program, whose peer draws its first id.
  unfoldable pub main : LinkId → List Turn → World
  main node turns = run_lines turns (record {
    link = new node (bpm_to_tempo F (F.of (pos 120)));
    ctl = record { published = none; subscribed = none };
  })
