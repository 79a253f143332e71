-- ===== src/Runtime/Sound.antt =====
-- What crates/tactus/src/runtime.rs and the calls of crates/tactus/src/lib.rs do to the gateways.
use link_wire_rs.Common.{
  ℕ, suc, ◌≡◌, refl, List, [], ◌∷◌, Option, none, some, Bool, true, false, not, ◌&&◌, ◌||◌, ◌==◌,
  if-intro, arith,
}
use link_wire_rs.Common.Int.{ℤ}
use link_wire_rs.Common.Maps.{insert, nat_eq, retain}
use link_wire_rs.Types.Endpoint.{SocketAddr}
use link_wire_rs.Iface.Plan.{Interface, contains, is_empty, plan}
use link_wire_rs.LinkAudio.Requests.{shutdown}
use link_wire_rs.LinkAudio.Sound.{datagram-Holds, shutdown-Holds}
use link_wire_rs.Engine.State.{State, Env, Gateway, Measurement, now, random_id, push}
use link_wire_rs.Engine.Send.{send_alive_on}
use link_wire_rs.Engine.Budget.{
  Doors, doors, Closable, Sound, Holds, if-Holds, schedule_broadcast-Holds, send_alive-Holds,
}
use link_wire_rs.Engine.Hearing.{discovery-Holds, close-Holds}
use link_wire_rs.Engine.Retries.{measurement_datagram-Holds}
use link_wire_rs.Runtime.Gateways.{
  Role, mcast_discovery, unicast_discovery, measuring, audio, Sockets, gateway_of, add_gateway,
  open_gateway, gateway_live, dispatch, receive_from, open_all, Gateways, addresses, found, enable,
  disable, current, ids_at, close_ids, close_all, after_open, open_added, rescan,
}
use link_wire_rs.Math.Float.{IsClamped}
use link_wire_rs.Link.Calls.{set_tempo, set_is_playing}
use link_wire_rs.Link.Audio.{simulate_crash}

-- What the opening of a gateway keeps.
abbrev pub Opens : (Doors → Type 0) → Type 0
Opens D =
    (d : Doors) (g : Gateway)
    → d.enabled ≡ true
    → g.id ≡ d.next_gateway_id
    → D d
    → D (record d { gateways = insert g.id g d.gateways; next_gateway_id = suc d.next_gateway_id })

-- `D` survives all that the threads and the application do with the gateways: one closes, one opens with the next
-- id while the peer is enabled, the peer is enabled and disabled.
pub record Livable (D : Doors → Type 0) : Type 0 where
  pub closes : Closable D
  pub opens : Opens D
  pub enables :
      (d : Doors) → d.enabled ≡ false → D d → D (record d { enabled = true; epoch = suc d.epoch })
  pub disables :
      (d : Doors) → D d → D (record d { enabled = false; epoch = suc d.epoch; gateways = [] })

module _ {D : Doors → Type 0} where
  dispatch-Holds :
      (env : Env) (gw : ℕ) (src : SocketAddr) (buf : List ℕ) (role : Role) (st : State)
      → Holds D st
      → Holds D (dispatch env gw src buf role st)
  unfolding dispatch
  dispatch-Holds env gw src buf mcast_discovery st h = discovery-Holds env gw src buf st h
  dispatch-Holds env gw src buf unicast_discovery st h = discovery-Holds env gw src buf st h
  dispatch-Holds env gw src buf measuring st h = measurement_datagram-Holds env gw src buf st h
  dispatch-Holds env gw src buf audio st h = datagram-Holds env gw src buf st h

  pub receive-Holds :
      (env : Env) (gw epoch : ℕ) (src : SocketAddr) (buf : List ℕ) (role : Role) (st : State)
      → Holds D st
      → Holds D (receive_from env gw epoch src buf role st)
  unfolding receive_from
  receive-Holds env gw epoch src buf role st h =
      if-Holds (not (gateway_live gw epoch st)) st _ h (dispatch-Holds env gw src buf role st h)

  pub tempo-Holds :
      (env : Env) (tempo : ℤ) (st : State)
      → IsClamped tempo
      → Holds D st
      → Holds D (set_tempo env tempo st)
  unfolding set_tempo now
  tempo-Holds env tempo st c h =
      schedule_broadcast-Holds env _
        (record { budget = h.budget; house = h.house; clamped = c; spaced = h.spaced })

  pub transport-Holds :
      (env : Env) (playing : Bool) (st : State)
      → Holds D st
      → Holds D (set_is_playing env playing st)
  unfolding set_is_playing now
  transport-Holds env playing st h = if-Holds st.sst_sync _ _ (schedule_broadcast-Holds env _ h) h

  pub crash-Holds : (st : State) → Livable D → Holds D st → Holds D (simulate_crash st)
  unfolding simulate_crash
  crash-Holds st l h = if-Holds (not st.enabled) _ _ h (record {
    budget = tt;
    house = l.disables (doors st) h.house;
    clamped = h.clamped;
    spaced = tt;
  })

  pub disable-Holds : (st : State) → Livable D → Holds D st → Holds D (disable st)
  unfolding disable
  disable-Holds st l h = if-Holds (not st.enabled) _ _ h (record {
    budget = tt;
    clamped = (shutdown-Holds st h).clamped;
    spaced = tt;
    house = l.disables (doors (shutdown st)) (shutdown-Holds st h).house;
  })

-- `D`, of a peer that is enabled.
abbrev pub On : (Doors → Type 0) → Doors → Type 0
On D d = (d.enabled ≡ true) × D d

module _ {D : Doors → Type 0} (opens : Opens D) where
  add-Holds :
      (addr : ℕ) (o : Option (SocketAddr × SocketAddr)) (st : State)
      → Holds (On D) st
      → Holds (On D) (add_gateway (gateway_of st.next_gateway_id addr o) st).1
  add-Holds addr none st h = h
  add-Holds addr (some e) st h = record {
    budget = h.budget;
    clamped = h.clamped;
    spaced = h.spaced;
    house = (h.house.0, opens (doors st) _ h.house.0 refl h.house.1);
  }

  open-Holds :
      (sockets : Sockets) (addr : ℕ) (st : State)
      → Holds (On D) st
      → Holds (On D) (open_gateway sockets addr st).1
  unfolding open_gateway
  open-Holds sockets addr st h = add-Holds addr (sockets st.next_gateway_id addr) st h

  open_all-Holds :
      (sockets : Sockets) (addrs : List ℕ) (st : State)
      → Holds (On D) st
      → Holds (On D) (open_all sockets addrs st)
  unfolding open_all
  open_all-Holds sockets [] st h = h
  open_all-Holds sockets (a ∷ addrs) st h =
      open_all-Holds sockets addrs _ (open-Holds sockets a st h)

  after_open-Holds :
      (a : ℕ) (failed : List ℕ) (r : Option Gateway × State)
      → Holds (On D) r.1
      → Holds (On D) (after_open a failed r).1
  unfolding send_alive_on push
  after_open-Holds a failed (none, st) h = h
  after_open-Holds a failed (some gw, st) h = h

  pub open_added-Holds :
      (sockets : Sockets) (addrs failed : List ℕ) (st : State)
      → Holds (On D) st
      → Holds (On D) (open_added sockets addrs failed st).1
  unfolding open_added
  open_added-Holds sockets [] failed st h = h
  open_added-Holds sockets (a ∷ addrs) failed st h =
      open_added-Holds sockets addrs _ _ (after_open-Holds a failed _ (open-Holds sockets a st h))

module _ {D : Doors → Type 0} (l : Livable D) where
  On-Closable : Closable (On D)
  On-Closable id d (e, h) = (e, l.closes id d h)

  off :
      {m : Option Measurement} {d : Doors} {t : ℤ} {due : Option ℤ} {last : ℤ}
      → Sound (On D) m d t due last
      → Sound D m d t due last
  off h = record { budget = h.budget; house = h.house.1; clamped = h.clamped; spaced = h.spaced }

  pub enable-Holds :
      (sockets : Sockets) (config : Gateways) (scan : Option (List Interface)) (env : Env)
      (st : State)
      → Holds D st
      → Holds D (enable sockets config scan env st)
  unfolding enable found random_id now
  enable-Holds sockets config scan env st h =
      if-intro (Holds D) st.enabled _ _ (λ e. h)
        (λ e. send_alive-Holds _ _ (
          off (
            open_all-Holds l.opens sockets (addresses config scan)
              (found (env.ids st.draws) (env.clock st.reads)
                (record st { draws = suc st.draws; reads = suc st.reads }))
              (record {
                budget = tt;
                house = (refl, l.enables (doors st) e h.house);
                clamped = h.clamped;
                spaced = tt;
              }))))

  close_ids-Holds :
      (env : Env) (ids : List ℕ) (st : State)
      → Holds (On D) st
      → Holds (On D) (close_ids env ids st)
  unfolding close_ids
  close_ids-Holds env [] st h = h
  close_ids-Holds env (id ∷ ids) st h =
      close_ids-Holds env ids _ (close-Holds env id st (On-Closable id) h)

  close_all-Holds :
      (env : Env) (addrs : List ℕ) (st : State)
      → Holds (On D) st
      → Holds (On D) (close_all env addrs st)
  unfolding close_all
  close_all-Holds env [] st h = h
  close_all-Holds env (a ∷ addrs) st h =
      close_all-Holds env addrs _ (close_ids-Holds env (ids_at a st.gateways) st h)

  pub rescan-Holds :
      (sockets : Sockets) (env : Env) (epoch : ℕ) (scan : Option (List Interface)) (failed : List ℕ)
      (st : State)
      → Holds D st
      → Holds D (rescan sockets env epoch scan failed st).1
  unfolding rescan
  rescan-Holds sockets env epoch scan failed st h =
      let p = plan scan (current st.gateways) in
      if-intro (λ (r : List ℕ × State). Holds D r.1)
        (is_empty p || not (st.enabled && st.epoch == epoch)) _ _ (λ e. h)
        (λ e.
          let on : st.enabled ≡ true = ground arith in
          off (
            open_added-Holds l.opens sockets p.added (retain (contains p.added) failed) _ (
              close_all-Holds env p.removed st (record {
                budget = h.budget;
                house = (on, h.house);
                clamped = h.clamped;
                spaced = h.spaced;
              }))))
