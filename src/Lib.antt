-- ===== src/Lib.antt =====
-- A verification library for Sub-Etha, a Matrix client for the browser with its own Web Push gateway.
--
-- The parts that are modelled, and where:
--   * Push: the gateway's server. `Push/Tables` has the rows of db/schema.ts; `Push/Budget`,
--     `Push/Delivery`, `Push/Registration` (with its modules `Begin`, `Confirm` and `Delete`) and
--     `Push/Cleanup` have the operations of
--     lib/push-repository.ts on them, each one transaction, with the SQL functions of drizzle/0002 and
--     drizzle/0003 that it calls; `Push/Repository` is the interface PushRepository and
--     neonPushRepository; `Push/Gateway` has lib/push-gateway.ts; `Push/Exec` and `Push/Server` have
--     createPushServer of lib/push-server.ts, a module per handler and `Push/Server/Handlers` for the
--     object that it returns.
--   * Media: `Media/Gate` has MediaOperationGate of lib/matrix/media.ts; `Media/Image` its limits and the
--     readers of image headers, a module per format, with assertSafeImageBytes in `Media/Image/Safety`;
--     `Media/Files` names uploads and inserts a text at a selection.
--   * Vault: lib/security/session-vault-format.ts. `Vault/Stored` has what the database yields and the
--     elementary tests, `Vault/Base64` the codec, `Vault/Records` and `Vault/Slots` the parts of a
--     record, `Vault/Validate` the validators of whole records, `Vault/Oauth` and `Vault/Session` the
--     persisted session, and `Vault/Binding` the data that the encryption is bound to.
--   * Matrix: `Matrix/UrlPolicy` is lib/matrix/url-policy.ts, which the vault and the login ask whether a
--     homeserver may be contacted; `Matrix/MessageText`, `Matrix/Drafts` and `Matrix/SessionWarning` are the
--     files message-text.ts, drafts.ts and remote-session-warning.ts beside it.
--   * Timeline: lib/timeline-scroll.ts in `Timeline/Scroll` and lib/timeline-window.ts in
--     `Timeline/Window`.
--   * Youtube: which videos a message previews, from lib/youtube-preview.ts. `Youtube/Tokens` scans a
--     message, `Youtube/Grammar` reads a link, `Youtube/Previews` collects the identifiers and
--     `Youtube/Failures` is the bounded store of failed thumbnails.
-- `Json` has the values that JSON.parse yields, and `Prelude` the tests, lists, texts and tables that
-- the components share.
--
-- A handler is an action on a world: the store, the calls of the clock and of the random generator so
-- far, the calls of the push service in order, and the log. It ends in a value, in a thrown Response or
-- in another error, whose status code statusCode reads. The server is written over an abstract
-- repository, so what is proved of it holds of any database; the tables are one such repository.
--
-- Parameters, for code that is not in this repository: the URL parser, ipaddr.js, toLowerCase, JSON.parse,
-- the digest of a capability, JSON.stringify with the UTF-8 encoder, the random generator, the clock, the push service and the database's order
-- of texts. A query that answers `none` is one that the database rejects.
--
-- Limits of the model: times are natural numbers of seconds, and a comparison with `now - window` is
-- written as one with a sum; JSON numbers are whole; an error while a body is read, and the durations in
-- the log, are left out; the deliveries of one notification run one after the other, which is one of the
-- schedules of mapWithConcurrency; `Push/Server/Pool` has them all, rejections of the mapper included, for
-- items that are not looked into. JSON.stringify is a parameter: what the bindings of the vault need of it
-- is that different values made of texts, null, arrays and safe whole numbers are written differently.
-- The transactions of `Push/Registration/History` are the
-- registrations, confirmations, cancellations and deletions; the counters, the marks and the clean-up
-- are not among them. The readers of images
-- take the bytes as a list, with the shifts and masks of bytes written as products and remainders, and
-- the vault's errors keep their code, not their message.
--
-- Fuel: `decimal` of `Prelude/Strings` has one round more than the number that it prints, which has fewer
-- digits than that. The loops over the bytes of an image, `walk` of `Prelude/Walks`, have one round more
-- than there are bytes, and every round moves on by a byte or leaves the loop. Every other loop is
-- structural.
--
-- Not modelled: the React interface and its styles, the service worker, the parts of lib/matrix that
-- drive matrix-js-sdk and the browser's storage, and the environment's configuration.
pub mod Prelude
pub mod Json
pub mod Matrix
pub mod Media
pub mod Push
pub mod Timeline
pub mod Vault
pub mod Youtube
