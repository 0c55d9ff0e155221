-- ===== src/Lib.antt =====
-- Enthrall shares one keyboard and mouse among several machines: the master process grabs its own
-- inputs and sends events over ssh to a remote process on each other machine. This library models the
-- program's own logic and proves what makes it correct.
--
-- The parts, from the bottom up:
--
-- Prelude (Prelude/*): Boolean tests, lists by native indices, byte strings, integers. No code.
--
-- Kvmap: the key-value map of kvmap.c, an association list searched by strcmp, and flatten_kvmap and
-- unflatten_kvmap of misc.c, which turn it into the pairs of a SETUP message and back.
--
-- Message: message.c and the types of proto.x. Message.Codec has unparse_message and parse_message;
-- the XDR routines are generated by rpcgen at build time, so a record of functions stands for them,
-- with what xdr(3) documents as the hypothesis IsSendable. Message.Drain and Message.Fill are
-- drain_msgbuf and fill_msgbuf: a descriptor is the list of what its next calls of read(2) or write(2)
-- do, and a list that has run out stands for a descriptor that blocks, so both recur on that list
-- and need no fuel.
--
-- Msgchan: msgchan.c. A channel has a queue of messages, a buffer for each direction and the flags that
-- say whether its descriptors are watched. mc_write_cb and mc_read_cb take what the descriptor does as
-- an argument. Msgchan.Link joins a sending channel to a receiving one.
--
-- Timer: schedule_call, cancel_call, run_scheduled_calls and get_select_timeout of x11.c. The id of a
-- call stands for its address. run_scheduled_calls recurs on a count of rounds; as many as there are
-- calls that are due, and one more, are enough.
--
-- Fdmon: the monitored descriptors of x11.c and the loop of handle_fds over them. Their contexts are a
-- doubly linked list with reference counts; the model has the memory, so that a context that has been
-- freed is one that can no longer be used. The loop recurs on a count of rounds; the number of contexts
-- is enough, since new ones are put before the one that is served.
--
-- Edge: the rings of edge events of main.c and the decision of trigger_edgeevent.
--
-- Backoff: the delay that fail_remote of main.c computes.
--
-- Master: the master's state machine in main.c. The state has the remotes by address, the two focus
-- pointers, the scheduled calls and the list of the effects on the world; Host stands for the
-- configuration, for what the system and the platform answer (each answer may depend on how many came
-- before) and for float arithmetic, on bit patterns. Master.Remotes disconnects and fails remotes and
-- enqueues messages; Master.Send has the senders; Master.Connect the connection attempts; Master.Focus
-- focus_node and its parts; Master.Events the screen edges and handle_message; Master.Actions the
-- hotkeys and the shutdown; Master.Topology the names, links and -e/-d settings. Master.Showing,
-- Failing, Sane, Keeping, Handling, Pointing, Focusing, Transfer, Switch, Acting, Ending, Linking and Linked are the
-- proofs. Master.Reachable has mark_reachable and check_remotes: the depth of the calls is bounded by the
-- number of remotes and one more, since each call but the last of a path marks one. Master.Run puts the
-- events together: a step relation with one constructor for each event that the event loop hands on, and
-- the runs that it makes. Master.Binding has bind_hotkeys. The functions that call one another in a circle are cut where focus_master lights the
-- display, since it lights only the master's.
--
-- Ssh: the arguments that exec_remote_shell of main.c gives to ssh(1), with a reader of such arguments
-- in Ssh.Reading, and load_id and ssh_pubkey_setup, with the answers of ssh-add(1) as an argument.
-- Ssh.Starting has what it does before any remote is enabled, which is where main calls it.
--
-- RemoteSide: remote.c, with mlog and set_loglevel of main.c as they work on a remote, where a line of
-- the log is a message to the master. Host stands for what the platform answers, and for the number
-- formats of printf(3).
--
-- Hotkeys: the table of bound hotkeys of x11.c, searched by key code and relevant modifiers.
--
-- Pointer: the grab of the inputs, the warps to the middle of the screen and the handlers of motion events
-- of x11.c. Pointer.Moving adds up what is sent, Pointer.Tracking and Pointer.Visiting have the results.
--
-- Selection: the X selection of x11.c: what set_clipboard_text stores, and how the requests of other
-- clients are answered. The server's answers are functions.
--
-- Keystring: parse_keystring of x11.c and of osx-keycodes.c, one loop over the pieces of a hotkey's name
-- with each platform's tables, and a description of what such a name means. The loop recurs on the
-- string's length.
--
-- Keymap: the modifier keys that are pressed, from the keymap of the X server or the mask of an OS X event,
-- and do_hotkey, which calls the hotkey that is found.
--
-- Keycodes: the keys of keycodes.h, and the table of x11-keycodes.c with its inversion and the two
-- translations. The numbers that X11/keysymdef.h gives the keysyms, and the server's
-- XKeysymToKeycode(3), are functions.
--
-- OsxKeycodes: the same for osx-keycodes.c, where several keycodes have one code, and the table says
-- which of them is meant on the way back.
--
-- Integers are natural numbers, with the wrap-around written out where a uint64_t or size_t may wrap;
-- the counters of failures and of queued messages are taken as unbounded.
--
-- Not modelled: memory release and the wiping of freed messages; log output other than what a remote
-- sends; the ssh child process itself; exits when a system call fails at start-up; X11 and
-- OS X input, display and clipboard calls (x11.c, osx.c) other than the parts above; the generated
-- configuration parser (cfg-parse.y, cfg-lex.l).
pub mod Backoff
pub mod Edge
pub mod Fdmon
pub mod Hotkeys
pub mod Keycodes
pub mod Keymap
pub mod Keystring
pub mod Kvmap
pub mod Master
pub mod Message
pub mod Msgchan
pub mod OsxKeycodes
pub mod Pointer
pub mod Prelude
pub mod RemoteSide
pub mod Selection
pub mod Ssh
pub mod Timer
