-- ===== src/Lib.antt =====
-- minbif: an IRC gateway to instant messaging networks. A user connects with an IRC client; a
-- session reads lines, parses them to messages, finds the command in a table and calls its handler;
-- handlers act on nicks and channels, which send messages back, and libpurple does the talking.
--
-- The parts, and the files that model them:
--   Token           src/core/util.cpp: stringtok and the loop over tokens
--   Message         src/irc/message.cpp, src/irc/message.h, src/core/entity.h: the messages of IRC,
--                   `format` and `parse`; strupper and strlower of src/core/util.cpp
--   Ip              src/core/util.cpp: is_ip
--   Markup          src/core/util.cpp: irc2markup, the control codes of IRC as tags
--   Nick            src/irc/nick.cpp, src/irc/nick.h: the names of a nick, and `nickize`
--   Bits, Modes     src/irc/channel.cpp: the flags of a channel user and their letters
--   Network         src/irc/nick.cpp and src/irc/channel.cpp: join, part, kick, quit, modes, topics
--   Auth            src/im/auth.cpp, auth_local.cpp, auth_connection.cpp, auth_pam.cpp: logins
--   Dcc             src/irc/dcc.cpp, src/irc/dcc.h: files sent to a user and received from one, and
--                   the text of an offer
--   Irc             src/irc/irc.cpp, src/irc/cmds.cpp, src/irc/user.cpp: the session of a user
--   Registry        src/irc/irc.cpp, src/irc/server.cpp: the maps of nicks and servers of a session
--   Chat            src/irc/cmds_channels.cpp, MODE of src/irc/cmds.cpp: the commands on channels and
--                   nicks, which act on Network and Registry together
--   Ipc             src/server_poll/daemon_fork.cpp: the processes of the sessions, and their messages
--   Config          src/core/config.h, src/core/config.cpp: the items and sections of the
--                   configuration, their declaration, and MyConfig::Load
--   Log             src/core/log.h, src/core/log.cpp: the kinds of log lines and their names
--   Accounts        src/im/purple.cpp, src/im/im.cpp, src/im/account.cpp: the list of accounts and
--                   their IDs
--   Options         src/im/protocol.cpp, src/im/account.cpp: the options of protocols and accounts
--   Maps            src/irc/cmds_accounts.cpp: MAP, CONNECT and SQUIT
--   Settings        src/irc/settings.cpp, ADMIN of src/irc/cmds.cpp: what the user can set
--   Outbox          src/irc/conv_entity.cpp: the messages that wait for a conversation
--   Bans            src/irc/status_channel.cpp, matchNick of src/irc/irc.cpp: channels with buddies
--
-- How the state is kept. A text is the list of its bytes. A call that may throw, fail an assertion
-- or have no defined behaviour gives a `Result`. In Network the `ChanUser` objects that a nick and a
-- channel both point to stand on a heap: nicks, channels and objects are numbers, `delete` empties a
-- place of the heap, and a pointer to an empty place gives `undefined` when it is read. `Nick::send`
-- is a virtual method; what it is called with is kept in order, here and in Irc. In Irc the session
-- is the user with its flags, the answers and the messages to other processes; the clock is an
-- argument. A set of flags is the list of its bits.
--
-- In Config a section is a position in a list, and pointers are positions; what is deleted stays in
-- the list with nothing that points to it, and a pointer beyond the list gives `undefined`.
--
-- Loops are structural, but for nine. `tokens` and `parse_loop` run on fuel one above the length of
-- the text, of which each round takes at least a byte; `clean_loop` of Registry, which starts again
-- behind each nick it deletes, runs on fuel one above the number of nicks; `rebuild_loop` runs on
-- fuel one above the number of arguments, of which each round takes at least one;
-- `markup_loop` runs on fuel one above the length of the text, of which each round that goes on takes
-- at least a byte. `name_loop` of Accounts, which starts again behind each ID that is taken, runs on
-- fuel one above the number of accounts. `copy_section`, `clean_section` and `find_empty_section` of
-- Config go down the sections on fuel one above their number, since a section's own stand behind it
-- in the list.
--
-- In Ipc one record is one process, with what it writes, closes and asks for in order; a child_t is
-- known by its address, which is not used again. A step is a connection or what a socket has to
-- read, so orders of events are sequences of steps. Names in the log of b_log are kept as they are
-- passed, without the text of errno.
--
-- Parameters. The transliteration of g_convert_with_iconv is a function of `nickize`. Libpurple's
-- values of the channel user flags are the record `ChatFlags`. Libpam, the user name of the
-- connection, the directories of accounts and the start of libpurple are the record `World`.
-- Configuration, version and build date are the record `Server`. The handlers of commands that
-- need an account are an argument of `dispatch`. In Chat, the virtual methods of nicks and channels,
-- and what libpurple and libcaca answer, are the records `Peers`, `Profiles` and `Accounts`; joinChat
-- there may change the session, since libpurple may call back. In Ipc, the answers of write are `Os`,
-- and those of accept, socketpair and fork are `Connection`. Numbers that are printed or read
-- through streams are the records `Numbers`, `Streams` and `Ints`; in the last one, for the IDs of
-- accounts, an int is its 32 bits, and its overflow is `undefined`.
--
-- In Maps the calls of im::IM and im::Account are the record `Im`, which may reach the session; in
-- Options the account of libpurple is the record `Store`, and in Settings the preferences are the
-- record `Backing`. What an int and a bool are before they are set, and the order of strings, are in
-- the record `Loader` of Config.
--
-- Not modelled: most of libpurple's wrappers (src/im), which call it and nothing else; sockets and TLS
-- (src/sockwrap); signals and the start of the program (src/core, src/server_poll); images; the
-- subclasses of Nick and Channel for buddies and conversations, but for their queue of messages and
-- StatusChannel; markup2irc.
pub mod Prelude
pub mod Token
pub mod Result
pub mod Markup
pub mod Message
pub mod Nick
pub mod Bits
pub mod Modes
pub mod Network
pub mod Auth
pub mod Ip
pub mod Ipc
pub mod Irc
pub mod Config
pub mod Log
pub mod Accounts
pub mod Options
pub mod Maps
pub mod Settings
pub mod Outbox
pub mod Bans
pub mod Dcc
pub mod Registry
pub mod Chat
pub mod Tests
