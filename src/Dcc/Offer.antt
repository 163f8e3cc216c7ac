-- ===== src/Dcc/Offer.antt =====
-- The text of an offer, as `listen_cb` of src/irc/dcc.cpp writes it and `parseDCCSEND` reads it.
use minbif.Prelude.{
  ℕ, ◌-◌, false, not, ◌&&◌, ◌||◌, List, [], ◌∷◌, ◌++◌, Option, none, some, Text, codes, first,
  last?, length, take, text_eq, ◌==◌, if◌then◌else◌,
}
use minbif.Result.{Result, ok, ◌>>=◌}
use minbif.Token.{tokens}
use minbif.Message.{message, behind_first}
use minbif.Message.Quotes.{rebuild_with_quotes}
use minbif.Irc.{add_args}

-- t2s and the three instances of s2t, which read and print through streams
pub record Numbers : Type 0 where
  pub t2s : ℕ → Text
  pub to_addr : Text → ℕ
  pub to_port : Text → ℕ
  pub to_size : Text → ℕ

pub record Offer : Type 0 where
  pub filename : Text
  pub addr : ℕ
  pub port : ℕ
  pub size : ℕ

-- The argument of the PRIVMSG that listen_cb sends, of a transfer of type SEND.
unfoldable pub offer_text : Numbers → Offer → Text
offer_text v o =
    1
    ∷ (codes "DCC SEND \""
        ++ (o.filename
            ++ (codes "\" "
                ++ (v.t2s o.addr
                    ++ b' '
                      ∷ (v.t2s o.port
                          ++ ((if o.size == 0 then [] else b' ' ∷ v.t2s o.size) ++ 1 ∷ []))))))

-- The last test of parseDCCSEND, on the arguments.
unfoldable pub offer_of : Numbers → List Text → Option Offer
offer_of v (dcc ∷ send ∷ name ∷ addr ∷ port ∷ size ∷ []) =
    if text_eq dcc (codes "DCC") && text_eq send (codes "SEND")
    then some (record {
      filename = name;
      addr = v.to_addr addr;
      port = v.to_port port;
      size = v.to_size size;
    })
    else none
offer_of v _ = none

-- DCCGet::parseDCCSEND
unfoldable pub parse_dcc_send : Numbers → Text → Result (Option Offer)
parse_dcc_send v line =
    if not (first line == 1) || not (elim (last? line) [ none ↦ false | some c ↦ c == 1 ])
    then ok none
    else (do
      m ← add_args (tokens (codes " ") (take (length line - 2) (behind_first line))) (message [])
      m ← rebuild_with_quotes m
      ok (offer_of v m.args))
