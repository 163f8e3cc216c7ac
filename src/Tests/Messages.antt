-- ===== src/Tests/Messages.antt =====
-- Tests of `stringtok` (src/core/util.cpp) and of messages (src/irc/message.cpp).
use mathlib.Core.List.{flatten}
use minbif.Prelude.{◌≡◌, refl, [], ◌∷◌, map, true, codes}
use minbif.Result.{ok}
use minbif.Token.{stringtok, behind, tokens}
use minbif.Token.Words.{words, tokens-words}
use minbif.Message.{Message, parse, format, add_arg, strupper, set_command, parse_loop}
use minbif.Message.Args.{only_last_spaced}
use minbif.Message.RoundTrip.{plain, plain_args, IsCommand}
use minbif.Message.Stream.{IsWire, parse-format_stream}
use minbif.Message.Total.{parse_total}

tokens_lines :
    tokens (codes "\r\n") (codes "NICK a\r\n\r\nUSER b") ≡ codes "NICK a" ∷ codes "USER b" ∷ []
unfolding tokens
tokens_lines = refl

tokens-words_example : tokens (codes "\r\n") (codes "a\r\n") ≡ words (codes "\r\n") (codes "a\r\n")
tokens-words_example = tokens-words (codes "\r\n") (codes "a\r\n")

parse_privmsg :
    parse (codes "privmsg &minbif :add  me ")
    ≡ ok (plain (codes "PRIVMSG") (codes "&minbif" ∷ codes "add  me " ∷ []))
unfolding parse parse_loop stringtok strupper set_command add_arg
parse_privmsg = refl

-- One space at the end of the last argument is lost if it is the only one.
parse_loses_space :
    parse (codes "PRIVMSG bob :hi ") ≡ ok (plain (codes "PRIVMSG") (codes "bob" ∷ codes "hi" ∷ []))
unfolding parse parse_loop stringtok strupper set_command add_arg
parse_loses_space = refl

abbrev hello : Message
hello = plain (codes "PRIVMSG") (codes "bob" ∷ codes ":) see you" ∷ [])

abbrev quit : Message
quit = plain (codes "QUIT") []

hello-IsCommand : IsCommand hello.cmd
unfolding strupper
hello-IsCommand = record { named = refl; spaceless = refl; upper = refl }

quit-IsCommand : IsCommand quit.cmd
unfolding strupper
quit-IsCommand = record { named = refl; spaceless = refl; upper = refl }

hello-IsWire : IsWire hello
unfolding plain_args behind
hello-IsWire = record {
  sender = refl;
  receiver = refl;
  command = hello-IsCommand;
  args = refl;
  one_line = refl;
  one_line_args = refl;
}

quit-IsWire : IsWire quit
unfolding plain_args behind
quit-IsWire = record {
  sender = refl;
  receiver = refl;
  command = quit-IsCommand;
  args = refl;
  one_line = refl;
  one_line_args = refl;
}

parse-format_stream_example :
    map parse (tokens (codes "\r\n") (flatten (map format (hello ∷ quit ∷ []))))
    ≡ ok hello ∷ ok quit ∷ []
parse-format_stream_example =
    parse-format_stream (hello ∷ quit ∷ []) (hello-IsWire, (quit-IsWire, tt))

parse_total_example :
    (n : Message) × (parse (codes "nick :") ≡ ok n) × (only_last_spaced n.args ≡ true)
parse_total_example = parse_total (codes "nick :")
