-- ===== src/Tests/Chats.antt =====
-- Tests of the handlers for nicks and channels (src/irc/cmds_channels.cpp).
use minbif.Prelude.{◌≡◌, refl, [], ◌∷◌, true, false, codes, ◌==◌}
use minbif.Result.{ok, err, malformed}
use minbif.Message.{message}
use minbif.Token.{tokens}
use minbif.Message.RoundTrip.{is_trailing}
use minbif.Registry.{Registry}
use minbif.Chat.{
  Chat, Peers, m_part, m_names, m_topic, m_whowas, m_privmsg, get_channel, is_chan_name,
}
use minbif.Chat.Targets.{spaced_target_throws, on_line, trailing}
use minbif.Chat.Privmsg.{relayed, m_privmsg-copies}
use minbif.Chat.Joins.{Accounts, m_join}
use minbif.Chat.Joining.{Joins, IsJoinable, m_join-Joins}
use minbif.Tests.Nicks.{flags}
use minbif.Tests.Networks.{net, links-IsLinked}
use minbif.Tests.Registries.{registry}

-- Nick 3 is the user; channel 5 is &minbif.
abbrev chat : Chat
chat = record {
  net = net;
  registry = registry;
  channels = (codes "&minbif", 5) ∷ [];
  user = 3;
  asked = [];
}

abbrev peers : Peers
peers = record {
  is_online = λ n. true;
  is_away = λ n. n == 12;
  away_message = λ n. codes "lunch";
  is_buddy = λ n. true;
  is_remote = λ n. true;
  kick = λ c a b reason n. ok n;
  invite = λ c nick. true;
  show_bans = λ c n. ok n;
  process_ban = λ c mask add n. ok n;
  server_of = λ n. net.irc;
}

abbrev accounts : Accounts
accounts = record {
  is_valid = λ a. true;
  is_connected = λ a. true;
  join_chat = λ a conv param s. (false, s);
  url_decode = λ t. t;
}

spaced_target_throws_example :
    (on_line (trailing (codes "PART") (codes "a b")) (λ m. m_part m chat) ≡ err malformed)
    × (on_line (trailing (codes "NAMES") (codes "a b")) (λ m. m_names flags m chat) ≡ err malformed)
    × (on_line (trailing (codes "TOPIC") (codes "a b")) (λ m. m_topic m chat) ≡ err malformed)
    × (on_line (trailing (codes "WHOWAS") (codes "a b")) (λ m. m_whowas m chat) ≡ err malformed)
unfolding is_trailing minbif.Token.behind minbif.Registry.find
spaced_target_throws_example =
    spaced_target_throws flags (codes "a b") chat refl refl (unfold get_channel in refl)

m_privmsg-copies_example :
    m_privmsg peers
      (record (message (codes "PRIVMSG")) { args = codes "bob,carl" ∷ codes "hi" ∷ [] })
      chat
    ≡ ok (record chat {
      net = record net { sent = relayed (codes "PRIVMSG") (codes "hi") chat 0 (10 ∷ 11 ∷ []) };
    })
unfolding tokens is_chan_name minbif.Registry.get_nick minbif.Registry.nick_loop
    minbif.Message.strlower
m_privmsg-copies_example =
    m_privmsg-copies peers
      (record (message (codes "PRIVMSG")) { args = codes "bob,carl" ∷ codes "hi" ∷ [] })
      (codes "bob,carl") (codes "hi") [] (10 ∷ 11 ∷ []) chat refl
      (refl, refl, refl, (refl, refl, refl, tt)) refl

chat-IsJoinable : IsJoinable chat
chat-IsJoinable = record { links = links-IsLinked; nick = refl; chans = λ c. refl }

m_join-Joins_example : Joins (
    m_join flags accounts
      (record (message (codes "JOIN")) { args = codes "&minbif,#room:acc,bob" ∷ [] })
      chat)
m_join-Joins_example =
    m_join-Joins flags accounts (λ accid conv param s j. j)
      (record (message (codes "JOIN")) { args = codes "&minbif,#room:acc,bob" ∷ [] })
      (codes "&minbif,#room:acc,bob") [] chat refl refl chat-IsJoinable
