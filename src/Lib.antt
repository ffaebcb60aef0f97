-- ===== src/Lib.antt =====
-- BeeBa is a catalogue of BEE files, bundles of 3D assets, with a web server and a worker. This
-- library models the parts of its back end that decide what becomes public and whom the program
-- talks to:
--
--   the validator of uploaded BEE files      Backend/internal/security/basisbee/validator.go
--   the queue of background jobs             Backend/internal/repository/postgres/jobs.go and
--                                            Backend/internal/domain/jobs/job.go
--   the transactions that publish a content  Backend/internal/repository/postgres/jobs.go
--   the worker                               Backend/internal/app/worker.go
--   the endpoints of game servers            Backend/internal/domain/servers/server.go
--   the check of a game server               Backend/internal/servercheck/probe.go
--   the catalogue of game servers            Backend/internal/repository/postgres/servers.go
--   the accounts                             Backend/internal/repository/postgres/users.go and
--                                            admin_users.go beside it, and normalizeAdminRoles of
--                                            Backend/internal/http/handlers/admin/users.go
--
-- An upload is stored in quarantine with a job of the file-scan queue. The worker claims the job,
-- compares the object with the upload, has it scanned, lets the validator read it, and publishes
-- the content in one transaction or rejects it. Mails that confirm an account or a change are
-- jobs too: the account repository inserts one with each token it makes, and the mail carries the
-- token that a later call confirms. Game servers are registered by a connection string; a
-- scheduler enqueues their checks, and the worker probes them by UDP and writes the result down.
--
-- Files and what they model:
--   Common            shared types, lists, Go's errors, int64 (Common.Int), strings (Common.Text)
--   BasisBee.Types    the constants, `Result`, `Connector` and the records below it, the errors
--   BasisBee.Frame    `readRemoteSDKBEE`: read_remote, its length tests and its result
--   BasisBee.Pkcs7    `pkcs7Unpad`, `decryptBasisBytes`
--   BasisBee.Names    `validateString`, `validateTags`, `validateAssetMode`, `allowedPlatform`
--   BasisBee.Connector `validateConnector`; its loops are functions of their own
--   BasisBee.Json     `UnmarshalJSON`, `parseGeneratedSections`, `parseConnectorJSON`
--   BasisBee.Validator `ValidateRemoteSDKBEE`, `ValidateRemoteSDKBEEWithPassword`
--   Jobs.Row          the row of worker_jobs, its payload and the statements on one row
--   Jobs.Queue        `Claim`, `MarkSucceeded`, `MarkFailed`, `RetryAdminJob`, `backoff`, inserts
--   Jobs.Queue.Run    the queue over time: every order of these operations, as a step relation
--   Publish           `CompleteFileScan`, `publishCleanContentTx` and the two functions above it
--   Worker.Scan       `processFileScan`, `scanQuarantineObject`, `autoPublishCleanFile`,
--                     `publishCleanCandidate`
--   Worker.Email      the three handlers of confirmation mails
--   Servers.Endpoint  `ParseConnectionString`, `ConnectionString`, `ValidateEndpointShape`
--   Servers.Address   `ValidateEndpointForPublicCheck`, `validatePublicIP`
--   ServerCheck.Packet `BuildQueryPacket`, `ParseResponse` and the packet reader
--   ServerCheck.Probe `Probe`
--   Accounts.Db       the tables of accounts, sessions, tokens and roles
--   Accounts.Statement the transaction monad, the statements, `enforceEmailDailyLimit`
--   Accounts.Users    the rows of users, `loadPublicUserForUpdate` and the inserts of the tokens
--   Accounts.Confirm  `Create`, `VerifyEmail`, `UpdateProfile`, `ChangePassword`, the requests and
--                     confirmations of an address, a new password and a new address
--   Accounts.Sessions `CreateSession`, `RotateSession`, `RevokeByRefreshTokenHash` and the lookups
--   Accounts.Admin    `BanUser`, `UnbanUser`, `SetUserRoles`
--   Accounts.Normal   `normalizeAdminRoles`
--   Accounts.Run      the repository over time: any sequence of the calls that change the tables
--   Catalogue.Listing the tables of servers; Catalogue.Statement: the statements and constraints
--   Catalogue.Slug    `Slug`
--   Catalogue.Create  `Create`; Catalogue.Owner: `UpdateOwned`, `DeleteOwned`, `RequestVerification`
--   Catalogue.Check   `GetCheckTarget`, `CompleteCheck`, `EnqueueDueChecks`
--   Catalogue.Admin   `Hide`, `Restore`, `GetPublished`
--   Catalogue.Run     the catalogue over time: any sequence of the calls that change it
--   Worker.Server     `processServerCheck`: the probe of a server and what the catalogue makes of it;
--                     the calls that commit while the probe waits are an argument
-- The other files below these hold proofs, and those called Tests hold runs.
--
-- Conventions. A Go string and a []byte are lists of numbers; an int64 is ℤ, with its wrap-around
-- written out; a time is a number. A Go error is a constructor without its formatted text. A file
-- that is read is the bytes it yields and whether it ends in an error. A transaction is a function
-- of the tables that fails or succeeds as a whole; the rows that other transactions lock are an
-- argument of `Claim`. The catalogue's calls are functions of its tables. In the account repository
-- a transaction is a chain of statements in a monad of the tables and an error, calls take effect
-- one after another, and each call is given its now(), the ids that the database would draw, and
-- the database's lower and trim. The payload of a job is an object with string members, which is
-- what the program writes. Loops are structural; the padding of the query is on fuel, one unit for
-- each of the 384 bytes that can be missing, and the port is printed with five digits, enough for
-- 65535.
--
-- Arguments, since they are not part of the repository: SHA-256, PBKDF2, AES-CBC, encoding/json at
-- each type that is decoded, the Unicode tables beyond ASCII, netip.ParseAddr and net.ParseIP, the
-- resolver and the socket, the object store, the virus scanner's verdict, the mail service. The
-- encryption of stored passwords (Backend/internal/security/secretbox) wraps a cipher and is an
-- argument too.
--
-- Not modelled: HTTP handlers (but for normalizeAdminRoles), the other repositories, image
-- processing, search, configuration, the paged lists of jobs and of servers, and the front end. Of
-- the accounts, the avatar, the public profile, the list of users and the lookups of a login are
-- left out, which only read; so are most foreign keys (those of granted_by and of the actor of an
-- audit log among them), the casts of texts to uuid and inet, which can fail, and transactions that
-- overlap.
pub mod Common
pub mod BasisBee
pub mod Servers
pub mod ServerCheck
pub mod Jobs
pub mod Publish
pub mod Worker
pub mod Accounts
pub mod Catalogue
