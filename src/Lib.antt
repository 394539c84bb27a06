-- ===== src/Lib.antt =====
-- OID is an OpenID Connect provider with an admin back office. This library models the services that
-- issue, rotate and revoke its tokens, and states what keeps them safe.
--
-- The parts and their files:
--   Store: the rows of src/database/entities (Store/Entities), the calls on them (Store/Calls), and
--     the tests of statuses (Store/Statuses).
--     A service method is a function from the tables to its result or exception and the tables.
--     `transaction` takes back, on an exception, the tables that its callback writes through the
--     transaction's manager, and keeps other writes, as the code does.
--   Tokens: src/tokens/refresh-token.service.ts. Model has the inputs, results and helpers;
--     Service issueToken, issueTokenForClient, resolveRefreshGrant and rotateToken; ForClient
--     rotateTokenForClient; Revoke the two revocations. Family, Presented and Authorized have the
--     lemmas, Invariant, Rotation, Successor, Replay and Progress the
--     theorems about single calls. Lifecycle is the abstract machine of a token family, Follow what each
--     method does to it, Reach the runs of many calls.
--   Oidc: src/oidc/oidc-token.service.ts. Token is the exchange of a code, Jwt the signing key and
--     signed tokens, Claims buildUserClaims, Endpoints the other methods, which call Tokens.
--     Authorization, with Scopes and SessionLookup, is src/oidc/oidc-authorization.service.ts: it
--     stores the codes that Token exchanges. Exchange, SingleUse, Disclosure, Signed, UserInfo,
--     ScopeRoundTrip, Grant, Issued and Progress have the lemmas and theorems.
--   RateLimit: src/oidc/token-rate-limit.service.ts (TokenLimit) and
--     src/authentication/login-rate-limit.service.ts (LoginLimit) over Map as Buckets; TokenWindow and
--     LoginWindow have the theorems.
--   Sessions: src/authentication/provider-session.service.ts, less the texts of its cookies; Resumption
--     relates it to the session look-up of the authorization endpoint.
--   ClaimPolicy: the filters of src/better-auth/userinfo-policy.service.ts and claim-policy.ts, with
--     the theorems in Release. What their SQL queries load is an argument.
--   Csrf: src/admin/admin-csrf.service.ts, less the text of its cookie, with the theorem in Acceptance.
--   Admin: src/admin. Common has what the services share, Users and Status are admin-user.service.ts,
--     Groups admin-group.service.ts, Clients and ClientEdits admin-client.service.ts, Access
--     admin-access.service.ts and the three guards. Identity, Accounts, Deactivation, AccessRule,
--     Integrity, Membership, GroupChanges, Demotion, Catalog, ClientChanges and ClientSecret have the
--     lemmas and theorems.
--   Pages: src/admin/admin-pagination.ts and the cursors of the lists that call it; Lists is listUsers of
--     admin-user.service.ts and listClients of admin-client.service.ts. Order has the lemmas on their
--     order, Walk and Listing follow the cursors for a number of pages that is given, and a page
--     for each row is enough.
--   Resets: src/authentication/password-reset.service.ts, with theorems in Completion and Newest.
--   Invites: src/admin/admin-invite.service.ts and src/authentication/invite-accept.service.ts, with
--     theorems in Acceptance.
--   Credentials: src/better-auth/better-auth-credential.ts, which both links call; Stored has the lemmas.
--   Closing: the end of all sessions and tokens of a user, in a deactivation and in a reset; Effect has
--     the lemmas and the theorem.
--   Login: src/authentication/authentication.service.ts, over the tables and the login rate limit; Guards
--     says what its guards demand, Outcome has the theorem. What better-auth answers to a password is
--     an argument.
--   Logout: src/oidc/oidc-logout.service.ts, which calls Login; Redirect has the theorem.
--   Cookies: parseCookies of src/authentication/request-context.ts, which the guards call.
--   Audit: src/audit/audit.service.ts, which every service calls.
--   Sealing: the AES-GCM texts of both services.
--   Platform: what is not code of the repository, as a parameter: node:crypto, Buffer, JSON, URLs,
--     the configuration. A theorem that needs a promise of these has it as a hypothesis.
--   Json, Shared: JSON values; tests, texts and tables of rows.
--   Examples: a toy platform and the theorems at concrete rows.
--
-- Times are milliseconds, `now` an argument; what randomBytes and ulid draw is an argument as well.
-- No definition that models code takes fuel: every loop of these services is over a list or a text.
-- Row locks are not modelled: calls follow one another, which is what the locks enforce. Not modelled
-- are the generated ids and times of audit events, TypeORM itself, and the parts of the system that
-- the modelled services do not call: controllers, views, the sending of mail. The tables have no
-- foreign keys and no constraints of uniqueness of their own: what the code relies on is a hypothesis.
pub mod Shared
pub mod Platform
pub mod Json
pub mod Store
pub mod Audit
pub mod Sealing
pub mod Tokens
pub mod Oidc
pub mod RateLimit
pub mod ClaimPolicy
pub mod Sessions
pub mod Csrf
pub mod Cookies
pub mod Closing
pub mod Credentials
pub mod Resets
pub mod Admin
pub mod Invites
pub mod Login
pub mod Logout
pub mod Pages
pub mod Examples
