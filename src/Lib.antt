-- ===== src/Lib.antt =====
-- A model of the user service platform: its configuration, the handlers of its Identity router with
-- the error boundary, its mail with the SMTP submission client, the consumer Identity client, and the
-- order of a deployment.
--
-- The parts and where they are modelled:
-- * Prelude, Text, Url and Json hold what the parts share: results of code that throws, integers,
--   JavaScript strings as lists of code units, parsed URLs and parsed JSON.
-- * Smtp models src/features/identity/smtp-client.ts. Smtp/Encoding is toBase64Utf8; Smtp/Message is
--   sanitizeHeader, encodeSubject, normalizeCrlf, dotStuff and buildMultipartMessage; Smtp/Address is
--   sanitizeHelo and extractEnvelopeAddress; Smtp/Reply is parseCompleteReply; Smtp/Session is
--   SmtpProtocolSession and deliverViaWorkersSmtp. A method of the session is a function of the
--   session's state into an outcome (it returns, throws, or waits for good) and the next state, which
--   keeps a log of what was written and over which kind of connection. The peer, an argument, is a
--   list of the reads and the writes that the socket will settle.
-- * Consumer models src/features/identity/consumer-client. Consumer/Verifier is verifier.ts,
--   Consumer/Storage is storage.ts, Consumer/Keys is jwks-cache.ts, Consumer/Client is client.ts. An
--   asynchronous operation of the client and of the key cache is a tree of steps: it returns, throws,
--   or waits with a continuation that takes any answer and any state, so that a statement over the
--   tree covers every interleaving with the other tasks of the page; Consumer/Client/Page puts tasks
--   next to one another as a step relation. The client verifies tokens with
--   Consumer/Verifier and keeps its session with Consumer/Storage.
-- * Config models src/config: Config/Profiles is profiles.ts, and Config is config.ts, which lays the
--   runtime's texts over the profile of the environment and checks the result.
-- * Identity models files of src/features/identity: Policy is policy.ts and secret.ts, Tokens is
--   consumer-tokens.ts, Origins is origin-guard.ts, Resend is resend-transport.ts, Session is the
--   mapping of payloads in session.ts, Templates is mail-templates.ts, ActionUrls is action-urls.ts
--   with the mail callbacks of auth.ts, SmtpTransport is smtp-transport.ts over Smtp/Session, and
--   Mailer is mailer.ts.
-- * Http models the handlers. Http/Scope is the set-up of a request in router.ts, over Config and
--   Identity, with resolveSessionContext of session.ts; Http/Router has a function for every handler
--   of router.ts: Accounts, Tokens and Admin, the last with authorization.ts, admin-users.ts and
--   admin.ts. A handler is a run: it responds, throws, or waits for one call of the engine or the
--   database and goes on with whatever that returns or raises. Http/Boundary is the error boundary of
--   app.ts, and Http/Assets its serveAdminAsset and loggedPath. Http/Monitor reads a run with an
--   automaton; Permissions, Guarded, Responses, Enumeration, Secret and Listing are laws over it.
--   Http/Responding and Http/Reached are about the runs that the error boundary does not see.
-- * Deploy models files of scripts/deploy: Deploy/Naming is naming.ts, and Deploy/Orchestrate is
--   orchestrate.ts, a deployment as its events and its result; the preflight and the commands are the
--   caller's. Deploy/Secrets is secrets.ts and secret-bindings.ts, and the gate over them in
--   preflight.ts.
--
-- Parameters, since their code is not in the repository: atob, JSON, encodeURIComponent, WebCrypto,
-- new URL, toLowerCase, the socket, the answers of the service, of the engine and of the database,
-- the clock and random identifiers.
-- Loops are structural recursion over the list that they read, so that no fuel is needed; a read
-- that the peer never settles is an outcome of its own.
--
-- Not modelled: the third-party engine, framework and database, which the handlers call, with the
-- schemas of contract.ts that validate a request before a handler runs; the administration's
-- interface; the repository's other scripts; the background scheduler and the request log; and the
-- operations of client.ts that keep no state. The logout broadcast between tabs and a WebCrypto call
-- that throws are left out of the client, and so is a storage that refuses to be written. Errors that
-- the runtime's socket and stream objects raise when they are released or closed are left out of the
-- SMTP session. The two queries of the listing, which are begun together, are made one after the
-- other.
pub mod Prelude
pub mod Text
pub mod Url
pub mod Json
pub mod Smtp
pub mod Consumer
pub mod Config
pub mod Identity
pub mod Http
pub mod Deploy
