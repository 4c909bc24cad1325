-- ===== src/Mesh/Upgrade/Race.antt =====
-- Two requests for the one bridge.
use nodemesh.Base.{
  ℕ, ◌≡◌, ◌≢◌, refl, ◌∙◌, sym, Bool, true, false, List, [], ◌∷◌, Option, some, get_elem?, set,
  ==_ne,
}
use nodemesh.Sfu.Media.Delivery.{get_elem?-set_same, get_elem?-set_other}
use nodemesh.Mesh.Upgrade.{
  Phase, requested, checked, registered, bridging, ended, rejected, Upgrades, handle_ws_upgrade,
}

-- The steps of the requests as listed, while the dispatcher listens.
unfoldable pub run_steps : List ℕ → Upgrades → Upgrades
unfolding handle_ws_upgrade
run_steps [] u = u
run_steps (i ∷ is) u = run_steps is (handle_ws_upgrade true i u)

-- How far two requests are, and the flag.
pub record Stand (u : Upgrades) (i j : ℕ) (p q : Phase) (connected : Bool) : Type 0 where
  pub first : get_elem? u.phases i ≡ some p
  pub second : get_elem? u.phases j ≡ some q
  pub flag : u.ws_bridge_connected ≡ connected

module _ (i j : ℕ) (ne : i ≢ j) where
  moved :
      (u : Upgrades) (p p' q : Phase) (b b' : Bool) (sink : Option ℕ)
      → Stand u i j p q b
      → Stand
          (record { ws_bridge_connected = b'; ws_sink = sink; phases = set u.phases i p' })
          i
          j
          p'
          q
          b'
  moved u p p' q b b' sink s = record {
    first = get_elem?-set_same u.phases i p' s.first;
    second = get_elem?-set_other u.phases i j p' (==_ne i j ne) ∙ s.second;
    flag = refl;
  }

  checks :
      (u : Upgrades) (q : Phase)
      → Stand u i j requested q false
      → Stand (handle_ws_upgrade true i u) i j checked q false
  unfolding handle_ws_upgrade
  checks u q s =
      rw (s.first, handle_ws_upgrade)
        (rw s.flag (moved u requested checked q false false u.ws_sink s))

  rejects :
      (u : Upgrades) (q : Phase)
      → Stand u i j requested q true
      → Stand (handle_ws_upgrade true i u) i j rejected q true
  unfolding handle_ws_upgrade
  rejects u q s =
      rw (s.first, handle_ws_upgrade)
        (rw s.flag (moved u requested rejected q true true u.ws_sink s))

  registers :
      (u : Upgrades) (q : Phase) (b : Bool)
      → Stand u i j checked q b
      → Stand (handle_ws_upgrade true i u) i j registered q b
  unfolding handle_ws_upgrade
  registers u q b s =
      rw (s.first, handle_ws_upgrade) (rw s.flag (moved u checked registered q b b (some i) s))

  opens :
      (u : Upgrades) (q : Phase) (b : Bool)
      → Stand u i j registered q b
      → Stand (handle_ws_upgrade true i u) i j bridging q true
  unfolding handle_ws_upgrade
  opens u q b s = rw (s.first, handle_ws_upgrade) (moved u registered bridging q b true u.ws_sink s)

  closes :
      (u : Upgrades) (q : Phase) (b : Bool)
      → Stand u i j bridging q b
      → Stand (handle_ws_upgrade true i u) i j ended q false
  unfolding handle_ws_upgrade
  closes u q b s = rw (s.first, handle_ws_upgrade) (moved u bridging ended q b false u.ws_sink s)

swap : {u : Upgrades} {i j : ℕ} {p q : Phase} {b : Bool} → Stand u i j p q b → Stand u j i q p b
swap s = record { first = s.second; second = s.first; flag = s.flag }

-- Two requests for a bridge come while none is connected. When the first is through before the second
-- begins, the second is rejected. When the second is checked before the first has set the flag, both become
-- bridges; and when one of them ends, the flag says that none is connected, though the other still is.
-- The two requests have to differ.
pub upgrade_race :
    (u : Upgrades) (i j : ℕ)
    → i ≢ j
    → Stand u i j requested requested false
    → Stand (run_steps (i ∷ i ∷ i ∷ j ∷ []) u) i j bridging rejected true
      × Stand (run_steps (i ∷ j ∷ i ∷ j ∷ i ∷ j ∷ []) u) i j bridging bridging true
      × Stand (run_steps (i ∷ j ∷ i ∷ j ∷ i ∷ j ∷ i ∷ []) u) i j ended bridging false
unfolding run_steps
upgrade_race u i j ne s =
    let ne' : j ≢ i = λ e. ne (sym e) in
    let first_checks = checks i j ne u requested s in
    let both_check = checks j i ne' _ checked (swap first_checks) in
    let both_register =
      registers j i ne' _ registered false
        (swap (registers i j ne _ checked false (swap both_check))) in
    let both_bridge =
      opens j i ne' _ bridging true (swap (opens i j ne _ registered false (swap both_register))) in
    (
      swap (
          rejects j i ne' _ bridging (
            swap
              (opens i j ne _ requested false (registers i j ne _ requested false first_checks)))),
      swap both_bridge,
      closes i j ne _ bridging true (swap both_bridge),
    )
