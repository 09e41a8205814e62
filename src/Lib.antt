-- ===== src/Lib.antt =====
-- The control plane of linuxmuster-radius: FreeRADIUS containers for school servers, described by
-- records in a git-backed directory, rendered into configuration, started through the Docker
-- Engine and updated with a rollback. Paths are from the repository's root; the code is under
-- controlplane/lmnradius/.
--
-- Parts and files:
-- - models.py: Models. `Types` has the records (SSID, Instance, the request bodies), `Patterns` the
--   regular expressions over Regex (derivatives, with the language they accept in Regex/Language
--   and Regex/Words), `Fields` and `Requests` the validators as Boolean tests (true where the
--   validator returns), `Characters` what an accepted SSID can have, `Network` the loopback
--   check, `Urls` ldap_url_parts and is_ldaps.
-- - store.py: Store. put, get, list and delete on the directory, a dictionary of file texts
--   (Dict). Names of files are in Store/Files; theorems are in Store/Names, Effects and Records.
-- - render.py: Render. render_clients_conf and render_ssid_policy. Render/Quoting and
--   Render/Accepted are about the escaping of values.
-- - docker_service.py: Docker. `View` is state_view and the status (and _status_problem of cli.py),
--   `Images` the split of an image reference, `Paths` _resolve_under, `Env` env_for with
--   `HostIp` detect_host_ip, `Mounts`
--   _mounts and _render_instance, `Inspect` status, _wait_settled and logs, `Lifecycle`
--   ensure_running, start, stop and restart, `Removal` remove and _leave_domain.
-- - reconciler.py: Reconciler. updater.py: Updater. diagnostics.py, with DockerService.test:
--   Diagnostics.
-- - cli.py: Cli, the SSID option and the client. `Json` and `Terminal` are what a command reads and
--   does to the outside, `Answers` how it takes an answer, `Pem` and `Tofu` the chain that is
--   pinned on first use, `Commands` and `Console` the commands, `Running` the choice among them.
--   What sends nothing is in Frames and Silence; theorems are in Exits, Refusals, Creating,
--   Statuses (with the status of docker_service.py as JSON), Pem/Served and Tofu/Shown.
-- - api.py and security.py: Api, the token check, the status codes and the routes of the instances;
--   Api/Authority has those that create an instance or write certificates. Api/Interleaving is a
--   step relation: an update is two steps, up to its wait and behind it, and the requests that
--   create, patch and delete instances come between them; Api/Interleaving/Whole relates it to the
--   update as one piece.
-- - config.py and main.py: Settings, what is taken from the file.
-- - ca.py: Ca, the templates of the two certificates. `Authority` is init_ca, ca_status and
--   export_ca, `Server` issue_server_cert and cert_status, `LdapCa` describe_pem_bundle and
--   write_ldap_ca; each gives the list of calls that write, and `Files` runs them on a directory
--   with file modes. Every operation first does all that may raise, then writes.
-- - scripts/lockfile_gate.py: Lockfile, the reader of a lockfile, with its grammar in
--   Lockfile/Grammar. The commands are Single (lint and only), Freeze, Closure and Published
--   (pypi);
--   they give the complaints, by kind, or the exit code.
--
-- How the code corresponds: a method that changes state or raises is an `Exec (World H)`, a
-- function from the state to a result and the state after it, so what was written before an
-- exception stays written. `World` has the instances directory, the other files and the state of
-- everything outside. `Exec` has the exceptions by class. Texts are lists of code points
-- (Prelude), numbers are native. Times are in milliseconds.
--
-- Parameters: `Host` is what the code calls and does not implement (git, the clock, YAML,
-- realpath, docker-py, and the sockets and /proc that detect_host_ip asks); `Stdlib` is
-- ipaddress.ip_network and the decimal value of a character; Diagnostics takes str.lower and
-- str.upper. World/Clock states what the clock promises; theorems that need a dump to load back say
-- so for the record they are about. `Crypto` is the package cryptography, and `Draw` what a call
-- draws: keys, a serial number and the time. The gates take str.lower, the requirements and markers
-- that packaging reads, and urlopen on the network's state. `Outside` is what the command line
-- calls: httpx with the API behind it, files, openssl, the prompt and the settings.
--
-- Fuel: the loops of _wait_settled and _wait_healthy poll until a deadline. They recurse on fuel
-- and answer `none` where it runs out; as many rounds as cover the timeout, and one more, are
-- enough (Docker/Fuel, Updater/Fuel). The search of the closure gate recurses on fuel as well, and
-- its bound is computed from what is installed (Lockfile/Closure/Fuel).
--
-- Not modelled: what FreeRADIUS makes of its files, the colours of the command line, start-up
-- and what pydantic-settings makes of the
-- environment, the argument parsers, logging, file modes and directories outside of
-- ca.py (makedirs, chmod, rmdir), and failures of reading or writing a file that exists. Of
-- certificates, the instants and serial numbers stay numbers.
pub mod Prelude
pub mod Regex
pub mod Exec
pub mod Dict
pub mod Models
pub mod Host
pub mod World
pub mod Store
pub mod Render
pub mod Docker
pub mod Reconciler
pub mod Updater
pub mod Settings
pub mod Diagnostics
pub mod Cli
pub mod Ca
pub mod Lockfile
pub mod Api
pub mod Tests
