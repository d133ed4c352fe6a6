-- ===== src/Lib.antt =====
-- sshgatew, an SSH gateway: users log in by key or OIDC with an optional TOTP code, and reach targets
-- whose credentials the gateway keeps encrypted. This library models its logic and proves what makes
-- it correct.
--
-- The parts, the code that each models and how they interact:
--   Prelude          shared names, tests, tables (lists of rows), integers, and Go's `strings`.
--   Store            internal/store (models.go, store.go). `Db` is the database, one list of rows for
--                    each table. Each method of `Store` is a function of the same name in snake case
--                    in a child named for its table (Users, Keys, Totps, Groups, Identities, Targets,
--                    Grants, Forwards, Oidc, Audit); `Result` holds its error. Lists has the queries
--                    that list rows. Operations is the type of all writing methods, and `run` a
--                    history of them. Columns names the four capabilities for the
--                    statements; WellFormed, Admin, Run, Replay, Access and Bindings hold proofs.
--   Totp             internal/totp/totp.go: Code, Validate, codeAt.
--   Secrets          internal/secrets/secrets.go: the encryption of credentials and its purposes.
--   Config           internal/config/config.go: Validate, and its OIDC part.
--   Downstream.Scp   internal/downstream/protocols.go: SafeSCPCommand and shellQuote; Scp.Shell is a
--                    shell's reading of a command, to say what the text built means.
--   Downstream.Dial  internal/downstream/downstream.go: Dial with the check of the host key,
--                    authMethod and ParseHostKey; Pinned holds proofs.
--   OidcDevice       internal/oidcdevice/oidcdevice.go: Begin, Complete, the discovery and the checks of
--                    URLs; Endpoints holds proofs.
--   Gateway          internal/gateway: Username (splitRoutedUsername), Sessions (acquire, release),
--                    Auth (the login callbacks of auth.go, which call Store, Secrets and Totp), Routing
--                    (routing.go, which calls all of these for a session or a forwarding) and
--                    Interactive (`handle` of server.go).
--   Tui              internal/tui/remote.go: parseInput and the extended keys.
--   Tui.Menu         internal/tui/menu.go: the state of the menu (`Model`) and its lists; Commands has
--                    the commands (`tea.Cmd`) as data, each with the Store operations that its run tries;
--                    Finish, Forms, Submit, Actions and Keys are the handlers, each of which leaves a
--                    state and perhaps a command, or none where the code panics; Loop has Update and
--                    the event loop (RunRemote, applyCommand), with the writes of other sessions as
--                    events in between. Rounds, Cursor, Dialogs, Shown, Member, Own,
--                    Audited and Undone hold proofs; Visible has visibleRange.
--   Cli              cmd/sshgatew/main.go: the commands that administer users, groups, targets and
--                    grants on the gateway's host (Users, Targets, and Admin for `adminCommand`); Sound
--                    and Changes hold proofs. Like the menu they use the store through Store.Effects,
--                    the operations that a command tries until one fails.
--   Tests            concrete data, and the theorems applied to it.
--
-- How the model stands to the code:
--   * A table is a list of rows, newest first; a row's id is one more than the largest one. Constraints
--     (UNIQUE, CHECK, REFERENCES, ON DELETE) are written out in the operations. An operation that
--     fails leaves the database as it was, like a statement or transaction that SQLite rolls back.
--     Failures of SQLite itself are left out, but for the writes of the menu that a clean-up follows
--     (`World.refuses`); so are time stamps and the migrations; the schema is the last one. NULL blobs are empty texts.
--   * Texts are lists of bytes, and case and white space are those of ASCII;
--     the theorems on Validate and on AddForwardRule say so in their hypotheses. Runes are counted and removed by the bytes of valid UTF-8. Ports, limits and ids are
--     natural numbers; TOTP counters are integers, and the conversion to 64 bits wraps around.
--   * XChaCha20-Poly1305, JSON, base32, HMAC, TOML and URL parsing, `shlex.Split`, the OIDC provider,
--     the client's answers, the clock and the dialled targets are arguments. Of the cipher `IsAuthentic`
--     says what its documentation does; a stored nonce of the wrong length, at which `Open` panics,
--     is an error here.
--   * A login or a session is one step on the database: no other connection writes between its calls.
--     The mutex of the session counters makes each call of acquire and release one step.
--   * Loops are recursion on lists, without fuel, but for two: parseInput has one unit of fuel for each
--     byte, enough by Tui.Parsing.parse_input-length, and applyCommand two units, enough by
--     Tui.Menu.Rounds.apply_command_enough.
--   * The menu's status line, titles, labels and drawing but visibleRange are left out; a key or an event is handled
--     with its commands before the next one, as RunRemote does.
-- Not modelled: the drawing of the menu and its method runCommand, which nothing calls but a test
-- (internal/tui/menu.go), the HTTP request of the device login (internal/oidcdevice), the setting up of
-- the gateway (init, serve and install of cmd/sshgatew), its pruning of the audit log, which needs
-- time stamps, the shell proxy, keep-alives, host key scan and agent channel of
-- internal/downstream/downstream.go, which copy bytes between libraries; files and the generation of
-- keys.
pub mod Prelude
pub mod Store
pub mod Totp
pub mod Secrets
pub mod Config
pub mod Downstream
pub mod OidcDevice
pub mod Gateway
pub mod Tui
pub mod Cli
pub mod Tests
