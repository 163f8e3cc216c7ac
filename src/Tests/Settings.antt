-- ===== src/Tests/Settings.antt =====
-- Tests of the items of the configuration (src/core/config.h, src/core/config.cpp).
use minbif.Prelude.{ℕ, ◌+◌, ◌-◌, ◌*◌, ◌≡◌, refl, [], ◌∷◌, true, false, all, Text, codes}
use minbif.Token.{stringtok, skip}
use minbif.Config.{
  pos, Item, Streams, int_item, set_value, set_int, set_item, has_item, item_line, item_lines,
  find_empty, clean_items, at_most,
}
use minbif.Config.Bounds.{in_bounds, loaded-in_bounds}

abbrev number : ℕ → Text → ℕ
number n [] = n
number n (c ∷ cs) = number (10 * n + (c - 48)) cs

abbrev streams : Streams
streams = record { extract = λ t old. pos (number 0 t) }

abbrev port : Item
port = record {
  label = codes "port";
  def_value = codes "6667";
  kind = int_item (pos 1) (pos 65535);
  found = true;
  text = [];
  number = pos 0;
  flag = false;
  value_min = pos 0;
  value_max = pos 0;
}

abbrev maxcon : Item
maxcon = record port {
  label = codes "maxcon";
  def_value = codes "0";
  kind = int_item (pos 0) (pos 65535);
}

loaded-in_bounds_example :
    all in_bounds
      (find_empty streams true
        (item_lines streams (codes "\tport = 6668" ∷ []) (clean_items (port ∷ maxcon ∷ []))).1).1
    ≡ true
unfolding item_lines item_line set_item set_value set_int has_item clean_items at_most find_empty
    stringtok skip
loaded-in_bounds_example =
    loaded-in_bounds streams (codes "\tport = 6668" ∷ []) (port ∷ maxcon ∷ []) refl refl

set_value_test : (set_value streams (codes "70000") port).1 ≡ record port { number = pos 70000 }
unfolding set_value set_int
set_value_test = refl
