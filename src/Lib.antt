-- ===== src/Lib.antt =====
-- The NocoDB middleware: a NestJS service (src/) that puts users, roles, table permissions and a
-- data API in front of NocoDB, and its SDK (client/src/).
--
-- A request for data passes TablePermissionsGuard, which asks for an OAuth scope or the
-- permissions of the user's roles; PermissionsService reads these from system tables of NocoDB
-- and caches them. DataService resolves the table, checks the fields of a write, and calls
-- NocoDBService, which limits the rate of the calls. The admin services (roles, assignments,
-- permissions) write the system tables and clear the cache. Before all that the startup makes the
-- system tables, the middlewares clean and count the request, and JwtStrategy turns its token into
-- a user, with local accounts or those that UserProvisioningService keeps for an identity provider.
-- The example application is apart from that: a backend with its own client of NocoDB, roles and
-- permission matrix, and a frontend that keeps the token of a session.
--
-- Parts:
--   Prelude                  names, texts (UTF-16 units), lists, Boolean tests
--   Js, Result, Effects      numbers and cells of the source's language, exceptions, code with
--                            state and exceptions (what was written before a throw stays written)
--   Types, Outside           src/nocodb/nocodb.types.ts, the shared types, and the world: the HTTP
--                            client with NocoDB behind it, the clock, timers, Unicode tables
--   Nocodb                   src/nocodb/nocodb.service.ts (Setup: configuration, delays of retries;
--                            Requests: flattening, sorting, rate limit, sending; Meta: tables;
--                            Records: records and batches)
--   Filter                   src/nocodb/nocodb-filter.util.ts (Pattern: its regular expressions)
--   Retry                    src/nocodb/nocodb-retry.util.ts
--   TableName                src/common/validation/table-name.ts
--   Page                     src/nocodb/dto/page-options.dto.ts, page-meta.dto.ts, page.dto.ts
--   Permissions              src/permissions (Cache, Service, Management, Scope), and the Guards of
--                            src/data/table-permissions.guard.ts, src/permissions/permissions.guard.ts
--                            and src/auth/guards
--   Roles                    src/roles/roles.service.ts (Catalog), src/users/user-roles.service.ts
--                            (Assignments)
--   Data                     src/data/data.service.ts
--   Api                      src/data/data.controller.ts and
--                            src/permissions/permissions-management.controller.ts behind their guards
--   Catalog                  src/nocodb/table-catalog.service.ts
--   Auth                     src/auth: Claims (identity-claims-normalizer.service.ts), Config
--                            (auth-provider-config.service.ts), Strategy (strategies/jwt.strategy.ts),
--                            Provisioning, Bootstrap and Token (user-provisioning.service.ts,
--                            bootstrap-admin.service.ts), Users (what they share)
--   Startup                  src/nocodb/database-initialization.service.ts
--   Sanitize                 src/common/middleware/sanitize.middleware.ts
--   Network                  src/config/cors.config.ts, src/nocodb/middleware/rate-limit.middleware.ts
--   Repository               src/nocodb/repositories, src/nocodb/interceptors/cache.interceptor.ts,
--                            src/nocodb/filters/nocodb-exception.filter.ts
--   Client                   client/src/http-client.ts
--   Sdk                      client/src/services (Encoding: paths; Records, Admin), and
--                            client/src/client.ts (Setup)
--   Example                  example/src, the example backend: Backend (its own NocoDB client), Pages,
--                            Books, Authors, Accounts (shared/services/auth.service.ts), Users,
--                            Guards, Server (the controllers behind the guards)
--   Frontend                 example/frontend/src: Session (stores/auth.ts), Shelf
--                            (stores/books.ts), Router (router/index.ts)
--   Tests                    runs on concrete inputs
-- Functions keep their names, in snake case; a function with several awaits is cut at the
-- decisions, and the pieces stand directly above it.
--
-- State: `App` holds the world, `nextAllowedTime`, the permission cache and the table cache. An
-- action is a function from it to a result or an exception and the state after it. What other
-- requests do between two awaits of an action is not part of it; the SDK, where this matters, is
-- modelled by events, and so are the stores of the frontend.
--
-- Bounds: `listAll` runs on fuel, `max_pages` pages of 1000 records, enough if the records fill
-- fewer pages. A navigation of the frontend has fuel for its redirections. The digits of a number
-- n have fuel n + 1, and are fewer. Numbers are exact below 10^21 in magnitude, others are texts.
--
-- Not modelled: messages and logs, trace spans, the loop of retries (the HTTP client of the model is
-- the one with its retries), the environment without `setTimeout`, the controllers of accounts, the
-- bootstrap and the table catalog, validation of payloads, templates of the example's frontend,
-- scripts. Passport's check of signatures, sanitize-html, the counting of express-rate-limit, bcrypt,
-- the signing of tokens, Node's crypto and the matching of routes by Express (the path that a guard
-- of the example reads is any text) are libraries: parameters where the code uses them. A sanitizer
-- that throws is not modelled, nor are inherited members of objects.
--
-- "NocoDB was only read" and the like is said of every property of the world that requests of the
-- allowed methods, the clock and timers keep, such as a record of the other requests.
pub mod Prelude
pub mod Js
pub mod Result
pub mod Filter
pub mod Retry
pub mod Effects
pub mod Types
pub mod Outside
pub mod Network
pub mod Nocodb
pub mod Sanitize
pub mod Startup
pub mod TableName
pub mod Page
pub mod Permissions
pub mod Repository
pub mod Roles
pub mod Data
pub mod Auth
pub mod Catalog
pub mod Api
pub mod Client
pub mod Sdk
pub mod Example
pub mod Frontend
pub mod Tests
