-- ===== src/Tests/Sections.antt =====
-- Tests of the sections of the configuration (src/core/config.cpp).
use minbif.Prelude.{◌≡◌, refl, Bool, true, false, not, ◌||◌, List, [], ◌∷◌, none, some, Text, codes}
use minbif.Result.{Result, ok, err}
use minbif.Token.{stringtok, skip}
use minbif.Config.{pos, Item, string_item, has_item}
use minbif.Config.Tree.{normal, Section, Tree, Loader, clean_tree, insert_section}
use minbif.Config.Load.{Progress, load, load_lines, is_in_section}
use minbif.Config.Lines.{IsTree}
use minbif.Config.Total.{misses_one, load_lem}
use minbif.Config.Declare.{
  Declared, declared, add_head, add_section, add_item, add_head-Declared, add_section-Declared,
  add_item-Declared, new_section, has_label, empty-IsHeap,
}

abbrev loader : Loader
loader = record {
  streams = record { extract = λ t old. old };
  less = λ a b. false;
  raw_number = pos 0;
  raw_flag = false;
}

abbrev cert : Item
cert = record {
  label = codes "cert";
  def_value = [];
  kind = string_item;
  found = false;
  text = [];
  number = pos 0;
  flag = false;
  value_min = pos 0;
  value_max = pos 0;
}

-- A section irc, with a section tls in it that needs an item cert.
abbrev no_sections : Tree
no_sections = record { heads = []; heap = []; loaded = false }

abbrev irc_only : Tree
irc_only = record {
  heads = 0 ∷ [];
  heap = new_section (codes "irc") normal none ∷ [];
  loaded = false;
}

abbrev tls_section : Section
tls_section = new_section (codes "tls") normal (some 0)

abbrev irc_section : Section
irc_section = record (new_section (codes "irc") normal none) { sections = 1 ∷ [] }

abbrev irc_tls : Tree
irc_tls = record irc_only { heap = irc_section ∷ tls_section ∷ [] }

abbrev irc_tls_cert : Tree
irc_tls_cert = record irc_only {
  heap = irc_section ∷ record tls_section { items = cert ∷ [] } ∷ [];
}

tree_of : {t : Tree} → Declared (some t) → IsTree t
tree_of (declared t w) = w

irc_tls_cert-IsTree : IsTree irc_tls_cert
unfolding add_head add_section add_item new_section has_label insert_section has_item
irc_tls_cert-IsTree =
    let a : IsTree no_sections = record { heap_ok = empty-IsHeap; heads_ok = refl } in
    let b : IsTree irc_only =
      tree_of (add_head-Declared loader (codes "irc") normal no_sections a) in
    let c : IsTree irc_tls =
      tree_of (add_section-Declared loader 0 (codes "tls") normal irc_only b) in
    tree_of (add_item-Declared 1 cert false irc_tls c)

abbrev file : List Text
file = codes "irc {" ∷ codes "\ttls {" ∷ codes "\t}" ∷ codes "}" ∷ []

load_lem_example :
    (u : Tree) × (r : Progress) × (s : Tree) × (clean_tree irc_tls_cert ≡ ok u)
    × (load_lines loader file (record { error = false; section = none; tree = u }) ≡ ok r)
    × (load loader file irc_tls_cert
        ≡ ok (not (r.error || (is_in_section r.section || misses_one r.tree)), s))
    × IsTree s
load_lem_example = load_lem loader file irc_tls_cert irc_tls_cert-IsTree

-- whether a configuration counts as loaded
abbrev loads : Result (Bool × Tree) → Bool
loads (ok r) = r.0
loads (err e) = false

-- The item cert misses, and the file is taken.
missing_nested : loads (load loader file irc_tls_cert) ≡ true
unfolding load new_section skip stringtok
missing_nested = refl

-- The section tls is not closed.
unclosed : loads (load loader (codes "irc {" ∷ codes "tls {" ∷ codes "}" ∷ []) irc_tls_cert) ≡ false
unfolding load new_section skip stringtok
unclosed = refl
