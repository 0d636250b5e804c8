-- ===== src/Lib.antt =====
-- Auth N&Z: authentication, authorization and the services behind them.
--
-- The program is a Python library and service. A login goes to the authenticator, which asks the
-- user repository for the account, the password hasher for the password, its own lockout for failed
-- logins and, where the account has a second factor, the device trust service or a challenge that
-- the second-factor provider checks; it answers with tokens of the token service and a session of
-- the session store. A request comes with a bearer token or a session, from which the authenticator
-- finds the user. Whether the user may do something is decided by the permission evaluator, which
-- closes the user's roles under the hierarchy and collects their permissions, and by the policy
-- manager, which asks a cache, then OPA behind a circuit breaker, then the declarative policy engine.
--
-- Which file models what:
--   Auth        authenticator.py, class Authenticator. Auth.State.Auth is what it keeps in memory
--               beside Redis; Lockout, Challenges, Login, Complete and Context have its methods by
--               their names; Login.World joins it with the users, the sessions and the devices.
--   Password    password_hasher.py, class PasswordHasher.
--   Mfa         mfa_provider.py, class MFAProvider.
--   Device      device_trust_service.py, over the rows of the table trusted_devices.
--   Session     session_store.py, class SessionStore, with Redis and with the fallback in memory.
--   Token       token_service.py, class TokenService: payloads, revocation, families, verification.
--   Permission  permission_evaluator.py, class PermissionEvaluator.
--   Policy      policy_engine.py, both classes: Engine for the first, Cache and Manager for the second.
--   Opa         opa_client.py, class OPAClient with its circuit breaker.
--   RateLimit   check_rate_limit of api/dependencies.py.
--   OAuth       oauth_provider.py, the states of class OAuthManager.
--   Workspace   workspace_repository.py, class WorkspaceRepository: Tables has the rows and the search
--               for a workspace, Slug the slugs, Workspaces and Members the operations by their
--               names, Steps their sequences.
--   Router      api/v1/auth_router.py: Refresh has refresh_tokens, in the two parts before and after it
--               waits for the user's record, and Logout has logout, over the token service, the
--               session store and the trusted devices.
--   Reset       the password reset tokens of user_repository.py, class UserRepository.
--   WebAuthn    webauthn_service.py, class WebAuthnService: Service has the challenges, Verify the two
--               verifications.
--   Guards      guards.py: require_auth, require_role and require_permission as functions of a request.
--   Identity    the users and members as the repositories return them, and their lookups.
--   Common      shared names, Python's dict, set and str methods, the rows of a table, and the
--               interfaces of Redis and of the JWT library.
--
-- How the code is modelled:
--   A method is a function from its arguments and the state to its result and the next state. What
--   it reads from outside (the time, a random id or token) is an argument. An early return or a
--   caught exception is a branch; a result is a data type or an Option where the code returns
--   different dictionaries, None, or raises.
--   Redis is an interface over an abstract database; every command may answer none, which is a call
--   that raised, and may have changed the database even so. PyJWT, SHA-256, uuid.UUID, pyotp, bcrypt,
--   argon2-cffi, fido2 and the HTTP client are parameters as well. What a theorem needs of one of them
--   is a hypothesis of that theorem (KeepsWrites of Token.Revocation, DecodesOwn of Token.Verify,
--   Documented of Password.Verify).
--   A table of the database is the list of its rows. A query goes through them in order; a transaction
--   that raises leaves them as they were, so such an operation gives its result with the tables
--   after it, or the error (Reply of Common.Rows); an operation that reads a row back after its
--   transaction gives its answer, or the error, beside the tables. One transaction is one step. Of the
--   database's own errors the workspace repository has those of the lengths of the text columns
--   (a DBAPIError), of a new workspace's and its creator's primary keys, of the unique slug and of the
--   foreign key of user_id (an IntegrityError); the id of a member that is added or invited is taken
--   to be new. A name or a department in a user's metadata is taken to be text, or null. The other
--   tables' limits on texts are not modelled.
--   Times are whole seconds. Text is modelled over ASCII where the code calls lower and strip. JSON
--   text that the code writes and reads back stands for the value itself, or is a parameter. The
--   roles of a user are a list and the metadata a dictionary, as _format_user of user_repository.py
--   makes them, so the branches for roles or metadata that are JSON text are not reached.
--   The authenticator's keys in Redis and those of the session store differ, so each has a database
--   of its own here. An id or token from the random generator is fresh only where a theorem or a step
--   relation says so.
--
-- Loops are structural recursion, but for three. The walk over the role hierarchy takes as fuel the
-- number of the user's roles and of all roles that the hierarchy names; each role is queued at most
-- once, so this is enough. Backup codes are generated from a list of drawn codes, which may be
-- used up. The search for a free slug takes as fuel one more than there are workspaces: the slugs that
-- it tries differ, so one of them is free.
--
-- Not modelled: the other queries of the user repository and its cache, the task repository, the lists
-- of the workspace repository, get_current_workspace of guards.py, the other requests of the API, the
-- OAuth providers, email, audit log, metrics, configuration, the command line, and how the services
-- choose a Redis client when they start: queries without a rule of their own, wiring, input and output.
-- The log messages and the answer's copy of the user are left out everywhere.
pub mod Common
pub mod Identity
pub mod Opa
pub mod Policy
pub mod Permission
pub mod Token
pub mod Session
pub mod Device
pub mod Mfa
pub mod Auth
pub mod Password
pub mod RateLimit
pub mod OAuth
pub mod Workspace
pub mod Router
pub mod Reset
pub mod WebAuthn
pub mod Guards
