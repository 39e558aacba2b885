-- ===== src/Tests/Listeners.antt =====
-- Two names that are forwarded.
use stm32f429_adbd.Common.{
  ℕ, ◌≡◌, refl, false, ◌&&◌, Option, none, some, List, [], ◌∷◌, ◌↔◌, if◌then◌else◌, same_text,
  codes,
}
use stm32f429_adbd.Listeners.{Listeners, find_listener, install_listener, remove_listener}
use stm32f429_adbd.Listeners.Names.{binding, has_name, IsDistinct}
use stm32f429_adbd.Listeners.Bindings.{is_ok, install_listener_lem, remove_listener_lem}

abbrev forwards : Listeners
forwards = record {
  ring =
      record {
        local_name = codes "tcp:1";
        connect_to = codes "tcp:7";
        fd = 4;
        transport = some 0;
        for_smart_sockets = false;
      }
      ∷ record {
        local_name = codes "tcp:2";
        connect_to = codes "tcp:8";
        fd = 5;
        transport = some 0;
        for_smart_sockets = false;
      }
      ∷ [];
  links = (0, codes "tcp:1") ∷ (0, codes "tcp:2") ∷ [];
  watched = 4 ∷ 5 ∷ [];
  closed = [];
}

forwards-IsDistinct : IsDistinct forwards.ring
unfolding has_name same_text
forwards-IsDistinct = (refl, (refl, tt))

bind : List ℕ → Option ℕ
bind name = some 6

-- The second name goes to another transport.
install_listener_lem_example :
    let (status, s') =
      install_listener bind (codes "tcp:2") (codes "tcp:9") (some 3) false forwards in
    IsDistinct s'.ring
    × ((n : List ℕ)
        → binding n s'.ring ≡ (
            if is_ok status && same_text (codes "tcp:2") n
            then some (codes "tcp:9", some 3)
            else binding n forwards.ring))
install_listener_lem_example =
    install_listener_lem bind (codes "tcp:2") (codes "tcp:9") (some 3) false forwards
      forwards-IsDistinct

remove_listener_lem_example :
    let (removed, s') = remove_listener (codes "tcp:2") forwards in
    IsDistinct s'.ring
    × ((removed ≡ false) ↔ (binding (codes "tcp:2") forwards.ring ≡ none))
    × ((n : List ℕ)
        → binding n s'.ring
          ≡ (if same_text (codes "tcp:2") n then none else binding n forwards.ring))
    × (s'.closed ≡ 5 ∷ [])
unfolding find_listener same_text
remove_listener_lem_example = remove_listener_lem (codes "tcp:2") forwards forwards-IsDistinct
