-- ===== src/Tests/Offers.antt =====
-- Tests of offers of files (src/irc/dcc.cpp, src/irc/message.cpp).
use minbif.Prelude.{
  ℕ, zero, suc, ◌+◌, ◌-◌, ◌*◌, ◌/◌, ◌%◌, ◌≡◌, refl, [], ◌∷◌, ◌++◌, some, Text, codes, ltb,
  if◌then◌else◌,
}
use minbif.Result.{ok}
use minbif.Dcc.Offer.{Numbers, Offer, offer_text, parse_dcc_send}
use minbif.Dcc.RoundTrip.{IsPrinted, parse-offer_text}

abbrev digits : ℕ → ℕ → Text
digits zero n = []
digits (suc f) n =
    let front = digits f (n / 10) in if ltb n 10 then (48 + n) ∷ [] else front ++ (48 + n % 10) ∷ []

abbrev number : ℕ → Text → ℕ
number n [] = n
number n (c ∷ cs) = number (10 * n + (c - 48)) cs

abbrev decimal : Numbers
decimal = record { t2s = digits 11; to_addr = number 0; to_port = number 0; to_size = number 0 }

abbrev offer : Offer
offer = record { filename = codes "my cat.png"; addr = 2130706433; port = 1024; size = 2048 }

offer_text_test :
    offer_text decimal offer ≡ 1 ∷ (codes "DCC SEND \"my cat.png\" 2130706433 1024 2048" ++ 1 ∷ [])
unfolding offer_text
offer_text_test = refl

offer-IsPrinted : IsPrinted decimal offer
offer-IsPrinted = record { words_ok = refl; addr_eq = refl; port_eq = refl; size_eq = refl }

parse-offer_text_example : parse_dcc_send decimal (offer_text decimal offer) ≡ ok (some offer)
parse-offer_text_example =
    parse-offer_text decimal offer (codes "my") (codes "cat.png" ∷ []) refl refl refl
      offer-IsPrinted
