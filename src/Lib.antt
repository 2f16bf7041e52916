-- ===== src/Lib.antt =====
-- arc, an orchestrator of ephemeral GitHub Actions runners.
--
-- Every host runs one orchestrator. A pass polls GitHub for queued jobs and registered runners, lists
-- each provider's instances, reaps what has finished, hands the jobs to pools by their labels, and
-- launches or removes runners until each pool is at its target. Hosts never talk to each other; they
-- meet in GitHub's list of runners, where a runner's name tells its pool and its host.
--
-- The files, and the code that each is about:
--   Prelude      lists, texts (as lists of bytes), integers, maps as association lists, a stable sort
--   Config       internal/config/config.go: the configuration; Config.Validation has Validate,
--                Config.Defaults applyDefaults, HostPool and Parse, Config.Expansion expandEnv
--   Ghapi        internal/ghapi/jobs.go, runners.go: repositories, jobs and runners as the client hands
--                them over; Ghapi.SelfHosted has the test on labels, Ghapi.Polling has PollJobs and
--                repoActiveJobs, Ghapi.Requests (internal/ghapi/client.go) the retries and the cache
--                of request, and RemoveRunner; Ghapi.Paging has paginate, Ghapi.Repos ListRepos with its
--                filter, Ghapi.Globs path.Match, Ghapi.Hooks (hooks.go) EnsureWebhook and DeleteWebhook
--   Provider     internal/provider/provider.go: instances
--   ProcessProvider  internal/provider/processprov/process.go, proc_unix.go: List and Logs over a disk
--                and processes that are state; Removal has Destroy, waitForExit and Prune, Creation has
--                Create and buildEnv, Cloning cloneTree, Template bootstrap.go, Preflight has Preflight
--                and checkRunnerDeps
--   DockerProvider  internal/provider/dockerprov/docker.go, engine.go: Hosts has newEngine and the
--                parsing of images and sizes, Requests has buildCreateRequest and List, Running has
--                ensureImage, Create, Destroy and Prune, Streams has demuxLogs and pullImage
--   Names        runnerName, belongsToPool, instanceKey of internal/orchestrator/orchestrator.go and
--                internal/hostid/hostid.go
--   Overrides    internal/state/overrides.go: LoadOverrides, Get, Set, Clear and persist. Overrides.Races
--                has goroutines that call them as steps, where the write comes after the lock
--   Scale        internal/orchestrator/scale.go: NewPoolMatcher, CanServe, Candidates, AssignDemand, Plan
--   Orchestrator internal/orchestrator/orchestrator.go: the state, and the log of the calls that change
--                something outside. Its children are the operations: Destroy (destroyInstance), Reap
--                (reap), Launch (scaleUp, launchOne), Cull (scaleDown), Limiting (limitsFor, SetDrained,
--                isDrained), PoolPass (applyPool), Foreign (discountForeignIdle), Failures
--                (recordFailure, Healthy), Pass (pollableRepos, reconcileOnce, the clocks of housekeep),
--                Teardown (internal/orchestrator/teardown.go: Teardown, BusyRunners).
--                Trace says what an operation adds to the log, and Frame what it leaves
--   Api          internal/api/server.go: auth and the handlers of scale, drain, resume and health, and
--                the number of lines that handleLogs asks for
--   Webhook      internal/webhook/server.go: the handler of deliveries; Webhook.Manager (manager.go) has
--                register, Unregister and the supervision in Run
--   Credentials  internal/opconfig/opconfig.go: Load and ReadCache; cmd/arc/vaultauth.go: Refresh;
--                internal/ghapi/auth.go: AppAuth.Token
--   Startup      cmd/arc/run.go: autoConfig, and the file that loadConfigMax takes
--   Uninstall    cmd/arc/uninstall.go: cmdUninstall, uninstallTargets, confirm and checkNotRunning
--   Examples     the theorems at concrete inputs, and tests
--
-- How the code is modelled. A field that changes is a field of a record, and an operation takes the
-- record and returns the next. What GitHub, the providers, the disk, the clock and the random source
-- answer is an argument: `Env` for calls that change something, where an answer may depend on all calls
-- made before, `Readings` for the listings of a pass, `Holdings` for those of a teardown, `Actions` and
-- `Remote` for what the client reads. Errors are values. One reading of the clock serves a whole pass.
-- Times and durations are nanoseconds, durations and limits are integers without the bound of 64 bits.
-- Messages for people are left out, and so is the log output.
-- Go's maps are association lists; where the code walks a map in no fixed order the model walks the
-- list, so that a theorem for all lists holds for all orders. Where the code sorts with a sort that may
-- swap equals, the model keeps their order. The launches of one scale-up run concurrently in the code
-- and share no state; the model runs them one after another. Loops are structural recursion on the list that the code walks or, for the retries
-- of a request, on the attempts that are left of the five that the code allows. Six loops have fuel:
-- paginate, where 201 rounds are enough, as the code stops after 201 pages; waitForExit, one
-- round for each 200 ms of the timeout and two more; checkNotRunning, 22 rounds of 250 ms for its five
-- seconds; demuxLogs, one for each byte and one more, where a
-- round takes eight bytes; the replacement of references in a line and the reading of a pattern, one for
-- each byte and one more, where a round takes a byte at least.
-- The provider interface is where the parts meet: the orchestrator sees a provider as the arguments of
-- its operations, the two providers are modelled on their own, and the names of the runners, the
-- registrations' ids and the states of the instances are the same types in all of them.
--
-- Not modelled: the HTTP exchange with Docker and GitHub with its transport, the signing of tokens, the
-- tunnel, the rest of the command line, and the reading and writing of YAML and JSON, which are input
-- and output; the Windows variant of the signals; docker.cpus, a float; and of the client the runner groups and the
-- registrations, of the API routing and the metrics text.

pub mod Prelude
pub mod Config
pub mod Ghapi
pub mod Provider
pub mod Orchestrator
pub mod Overrides
pub mod Names
pub mod Scale
pub mod Api
pub mod Webhook
pub mod Credentials
pub mod Startup
pub mod Uninstall
pub mod ProcessProvider
pub mod DockerProvider
mod Examples
