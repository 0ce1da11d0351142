-- ===== src/Lib.antt =====
-- A model of the mineral-collection server, and what holds of it.
--
-- The program is an HTTP API over a Postgres database and an object store. A request is
-- authenticated by its session or its bearer token, passes a middleware that limits its rate, and
-- reaches a handler that reads the rows, asks the guard whether the caller may act on the resource, and
-- hides from the caller the fields and photos that the caller may not see. Uploaded images lose their
-- metadata before they are stored.
--
-- The files and what they model, by paths of the repository:
--   Base           names, lists, texts and bytes that the other modules share.
--   Uuid, Domain   identifiers and the types of internal/domain/domain.go.
--   Auth           internal/auth/auth.go: the identity of a request, bearer tokens and the bearer
--                  middlewares.
--   Bff            internal/auth/bff: State is state.go (the signed cookie of a login), Session is
--                  middleware.go and session.go (`handle_session` is the middleware), Csrf is csrf.go,
--                  Cookie is cookie.go. Session/Refresh is about concurrent requests.
--   RateLimit      internal/ratelimit/limiter.go: a limiter is a record, its map of buckets a
--                  function of keys, `allow` is Limiter.Allow with the clock's reading as an
--                  argument. Balance gives a key's balance at any time, View what a call does
--                  to it, Budget counts what is admitted, Retry is about the reported wait.
--   Api/Limits     internal/api/ratelimit.go: `handle` is the middleware, `classify` its choice of
--                  a tier. Retry is about a client that waits as it is told.
--   Authz          internal/authz: the default policies, the model's matcher and its functions, and
--                  Enforce (`enforce_user`). Specimens is about who may act on a specimen,
--                  Owned about journal entries, collectors and QR sheets.
--   Api/Guard      internal/api/authz.go: check, checkView, authzUser and the resources.
--   Visibility     internal/visibility/visibility.go: ResolveScalar and ResolveImage. Chain is its
--                  independent description.
--   Api/Redact     internal/api/redact.go: redactSpecimen, filterPhotos, loadOwner with its memo as
--                  explicit state. Fields, Photos and Memo hold the laws.
--   Users          internal/db/user_postgres.go: the table and its queries; Rows is about single queries, Steps
--                  about writes of other requests, the deletion of internal/db/account_erase_postgres.go included.
--   Api/HumaAuth   internal/api/huma_auth.go: the middlewares in front of a handler and their chains.
--                  Resolve is about concurrent first logins, FirstLogin about the way to a full profile.
--   Api/Profile    internal/api/profile.go: complete, get and patch. Defaults is about the merge of
--                  the field defaults, Partial about a patch that is refused half way,
--                  Setup about the way from setup to the protected handlers.
--   Api/Admin      internal/api/admin.go: suspendUser and unsuspendUser; Console is the landing.
--   Specimens      internal/db/specimen_postgres.go: the rows of specimens, photos and journal, and the
--                  queries on a specimen.
--   Api/Specimens  internal/api/specimens.go: get, create, patch and delete; Patch holds the steps of a
--                  patch, Kept what it never changes.
--   Api/Moderation internal/api/moderation.go: report and takedown.
--   Incident       internal/incidentregister: the hash chain (incidentregister.go), Store (store.go), and
--                  Handlers (internal/api/incident_register.go). Canonical and Chain hold the laws.
--   Exif           internal/storage/exif/exif.go: stripPNGMetadata (Png), stripWebPMetadata (Webp), and
--                  filterJPEG, which is walkJPEGSegments with filter=true (Jpeg), filterEXIFBlob
--                  and buildFilteredIfd (Tags), and Filter, which chooses among them (Filter).
--
-- The guard, the redaction and the limiter share the user of Auth. Redact uses the Visibility chain for
-- the visibility of a field and the enforcer of Authz for the decision; Api/Limits uses RateLimit.
--
-- Numbers. An instant or a duration is a natural number of nanoseconds. A bucket's balance is a natural
-- number of units, of which a token has as many as the window has nanoseconds: this is the float64
-- balance of the source computed exactly, so rounding of floats is not modelled; at a
-- balance of just one token the source may decide otherwise. A byte is a number.
--
-- Fuel. The loops over an image's bytes take a unit of fuel for each byte of the file and one more; a
-- round takes at least two bytes off.
--
-- Not part of the program, and so parameters: the Casbin enforcer (Authz.Enforcer, with its documented
-- behaviour as laws), the text of an identifier (Uuid.UuidText), net.SplitHostPort,
-- base64 and HMAC (Bff.State.Crypto), SHA-256, the calendar and printed forms
-- (Incident.Platform), go-exif's reading and writing of a blob, the token verifier, the identity
-- provider, and the tables of sessions and shares.
--
-- Not modelled: SQL, S3, HTTP plumbing, the OIDC and Keycloak clients, page rendering, the
-- extraction of a photo's date, the lists of specimens, and the handlers of photos, journal,
-- collectors, sheets, import and export.
pub mod Specimens
pub mod Users
pub mod Incident
pub mod Uuid
pub mod Auth
pub mod RateLimit
pub mod Authz
pub mod Domain
pub mod Visibility
pub mod Exif
pub mod Api
pub mod Base
pub mod Bff
