-- ===== src/Runtime/Rescans.antt =====
-- What the rescans of crates/tactus/src/runtime.rs keep open.
use link_wire_rs.Common.{
  ℕ, ◌<◌, ◌≡◌, refl, ap, List, [], ◌∷◌, Option, none, some, true, false, not, ◌&&◌, ◌||◌, ◌==◌,
  Bool-cases, inl, inr, if-intro, arith, All,
}
use link_wire_rs.Common.Maps.{get, retain, nat_eq}
use link_wire_rs.Types.Id.{LinkId}
use link_wire_rs.Iface.Plan.{Interface, contains, admit, plan, is_empty}
use link_wire_rs.Iface.Sets.{diff_lem}
use link_wire_rs.Math.Float.{Float, bpm_to_tempo, bpm_to_tempo-IsClamped}
use link_wire_rs.Engine.State.{State, Env, Gateway, new}
use link_wire_rs.Engine.Budget.{Doors, ClosableAt, Holds}
use link_wire_rs.Engine.Hearing.{close-Holds}
use link_wire_rs.Runtime.Gateways.{Sockets, current, ids_at, close_ids, close_all, rescan}
use link_wire_rs.Runtime.Keys.{HasKeys, get-remove_other, get-insert_stays}
use link_wire_rs.Runtime.Sound.{Opens, On, open_added-Holds}
use link_wire_rs.Runtime.Steps.{Reach, reach-Holds}
use link_wire_rs.Runtime.House.{IsHouse, IsHouse-Livable, new-Sound}

-- The gateway with an id is open.
abbrev IsKept : ℕ → Gateway → Doors → Type 0
IsKept j g d = IsHouse d × (get j d.gateways ≡ some g)

abbrev addr_of : Option Gateway → ℕ
addr_of none = 0
addr_of (some g) = g.addr

own_ids :
    (n : ℕ) (gs : List (ℕ × Gateway))
    → All (λ p. (p.1.id ≡ p.0) × (p.0 < n)) gs
    → All (λ p. p.1.id ≡ p.0) gs
own_ids n [] h = tt
own_ids n (p ∷ ps) ((i, l), h) = (i, own_ids n ps h)

module _ (j : ℕ) (g : Gateway) where
  keys_away :
      (ps : List (ℕ × Gateway)) (k : ℕ)
      → (k == j) ≡ true
      → All (λ q. (q.0 == k) ≡ false) ps
      → All (λ q. (q.0 == j) ≡ false) ps
  keys_away [] k e h = tt
  keys_away (q ∷ qs) k e (hq, h) = (ground arith, keys_away qs k e h)

  IsKept-ClosableAt : (id : ℕ) → (id == j) ≡ false → ClosableAt id (On (IsKept j g))
  IsKept-ClosableAt id other d (on, (h, e)) =
      (on, (IsHouse-Livable.closes id d h, get-remove_other j id g d.gateways other e))

  given-below :
      (n : ℕ) (gs : List (ℕ × Gateway))
      → All (λ p. (p.1.id ≡ p.0) × (p.0 < n)) gs
      → get j gs ≡ some g
      → j < n
  given-below n [] h e = absurd (ground arith)
  given-below n (p ∷ ps) ((i, l), h) e = elim (Bool-cases (p.0 == j)) [
    | inl here ↦ ground arith
    | inr other ↦ given-below n ps h (rw other at e)
  ]

  IsKept-Opens : Opens (IsKept j g)
  IsKept-Opens d v on i (h, e) =
      let below = given-below d.next_gateway_id d.gateways h.given e in
      (
        IsHouse-Livable.opens d v on i h,
        get-insert_stays j v.id g v d.gateways (rw i (ground arith)) e,
      )

  -- Of the ids that stand at an address none is that of a gateway at another.
  absent_ids :
      (a : ℕ) (gs : List (ℕ × Gateway))
      → All (λ p. (p.0 == j) ≡ false) gs
      → All (λ p. p.1.id ≡ p.0) gs
      → All (λ i. (i == j) ≡ false) (ids_at a gs)
  absent_ids a [] n h = tt
  absent_ids a (p ∷ ps) (np, n) (hp, h) =
      if-intro (λ l. All (λ i. (i == j) ≡ false) l) (p.1.addr == a) (p.1.id ∷ ids_at a ps)
        (ids_at a ps) (λ here. (rw hp np, absent_ids a ps n h)) (λ there. absent_ids a ps n h)

  other_ids :
      (a : ℕ) (gs : List (ℕ × Gateway))
      → (a == g.addr) ≡ false
      → All (λ p. p.1.id ≡ p.0) gs
      → HasKeys gs
      → get j gs ≡ some g
      → All (λ i. (i == j) ≡ false) (ids_at a gs)
  other_ids a [] l h k e = tt
  other_ids a (p ∷ ps) l (hp, h) (kp, k) e = elim (Bool-cases (p.0 == j)) [
    | inl here ↦
        let same : some p.1 ≡ some g = rw here at e in
        let away : (p.1.addr == a) ≡ false = (let s = ap addr_of same in ground arith) in
        rw away (absent_ids a ps (keys_away ps p.0 here kp) h)
    | inr other ↦
        if-intro (λ l. All (λ i. (i == j) ≡ false) l) (p.1.addr == a) (p.1.id ∷ ids_at a ps)
          (ids_at a ps) (λ here. (rw hp other, other_ids a ps l h k (rw other at e)))
          (λ there. other_ids a ps l h k (rw other at e))
  ]

  close_ids-IsKept :
      (env : Env) (ids : List ℕ) (st : State)
      → All (λ i. (i == j) ≡ false) ids
      → Holds (On (IsKept j g)) st
      → Holds (On (IsKept j g)) (close_ids env ids st)
  unfolding close_ids
  close_ids-IsKept env [] st n h = h
  close_ids-IsKept env (id ∷ ids) st (ni, n) h =
      close_ids-IsKept env ids _ n (close-Holds env id st (IsKept-ClosableAt id ni) h)

  close_all-IsKept :
      (env : Env) (addrs : List ℕ) (st : State)
      → contains addrs g.addr ≡ false
      → Holds (On (IsKept j g)) st
      → Holds (On (IsKept j g)) (close_all env addrs st)
  unfolding close_all
  close_all-IsKept env [] st n h = h
  close_all-IsKept env (a ∷ addrs) st n h =
      let house = h.house.1.0 in
      close_all-IsKept env addrs _ (ground arith) (
        close_ids-IsKept env (ids_at a st.gateways) st
          (other_ids a st.gateways (ground arith)
            (own_ids st.next_gateway_id st.gateways house.given) house.keys h.house.1.1)
          h)

plan-keeps :
    (scan : Option (List Interface)) (opened : List ℕ) (a : ℕ)
    → ((list : List Interface) → scan ≡ some list → contains (admit list) a ≡ true)
    → contains (plan scan opened).removed a ≡ false
unfolding plan
plan-keeps none opened a h = refl
plan-keeps (some list) opened a h =
    let (all, added, removed) = diff_lem opened (admit list) a in
    let wanted = h list refl in ground arith

-- Throughout the life of a peer a rescan leaves every gateway open, with its id and its sockets, whose address the
-- scan admits, and every gateway where the scan fails.
pub rescan_keeps :
    (F : Float) (bpm : F.Double) (node : LinkId) (st : State)
    → Reach F (new node (bpm_to_tempo F bpm)) st
    → (sockets : Sockets) (env : Env) (epoch : ℕ) (scan : Option (List Interface)) (failed : List ℕ)
      (id : ℕ) (gw : Gateway)
    → get id st.gateways ≡ some gw
    → ((list : List Interface) → scan ≡ some list → contains (admit list) gw.addr ≡ true)
    → get id (rescan sockets env epoch scan failed st).1.gateways ≡ some gw
unfolding rescan
rescan_keeps F bpm node st r sockets env epoch scan failed id gw e wanted =
    let h =
      reach-Holds IsHouse-Livable r
        (new-Sound node (bpm_to_tempo F bpm) (bpm_to_tempo-IsClamped F bpm)) in
    let p = plan scan (current st.gateways) in
    if-intro (λ (r : List ℕ × State). get id r.1.gateways ≡ some gw)
      (is_empty p || not (st.enabled && st.epoch == epoch)) _ _ (λ idle. e)
      (λ busy.
        let on : st.enabled ≡ true = ground arith in
        let closed =
          close_all-IsKept id gw env p.removed st
            (plan-keeps scan (current st.gateways) gw.addr wanted)
            (record {
              budget = h.budget;
              house = (on, (h.house, e));
              clamped = h.clamped;
              spaced = h.spaced;
            }) in
        (open_added-Holds (IsKept-Opens id gw) sockets p.added (retain (contains p.added) failed) _
          closed).house.1.1)
