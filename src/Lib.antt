-- ===== src/Lib.antt =====
-- Verification of PSYBOT-AI (Nuttoo): the worker that packs, verifies and runs modules, the agent
-- that plans them, the indexer that follows the chain, the API, the command line parser, and the
-- scripts of the repository.
--
-- The parts. The worker (apps-worker/src) takes jobs from a queue in memory: packing stores a bundle
-- under its hash, verifying reads it back and attests to it, running writes it to a temporary
-- directory and starts a child in a sandbox. packages/module-kit runs a module the same way for
-- developers. The agent (apps-agent/src) loops: it observes repositories and packages, summarises
-- them, plans modules, suggests forks, and asks the registry's API to publish them, as far as its
-- policies allow. The API (apps-api/src) makes modules, forks and runs, and packages/sdk is its
-- client. The indexer (apps-indexer/src) reads the logs of the chain slot by slot, parses the events
-- in them and writes them and its checkpoints to the database. The scripts
-- (scripts) write and check env files, compute a version and release notes, seed and reset the
-- database, check the tree of files, make wallets, and export the interface of the program on the
-- chain.
--
-- The files. Base holds the helpers: tests and case lemmas, lists measured by native numbers, text
-- as UTF-16 code units, integers, and JSON with the platform's functions on it as a record of
-- operations and laws, of which Base/Json/Model is an instance.
--   Terminal/Parse: parseCommand and tokenize (packages/terminal-ui/src/commands/parse.ts).
--   ModuleKit/Sandbox, ModuleKit/Runner: runInSandbox and runModule
--     (packages/module-kit/src/runtime/{limits,sandbox,runner}.ts).
--   ModuleKit/Integrity: packModule, verifyIntegrity and validateSignature
--     (packages/module-kit/src/{pack,validate}, packages/crypto/src/signing.ts).
--   Worker/Limits: clampLimits; Worker/Collect: spawnAndCollect and the same code in spawnPlain;
--     Worker/Container: runSandbox (apps-worker/src/sandbox).
--   Worker/Artifacts: ArtifactStore and createAttestation (apps-worker/src/services);
--     Worker/Payloads and Worker/Jobs: the four processors (apps-worker/src/processors).
--   Worker/Queue: the queue, handleJob and the loop (apps-worker/src/main.ts).
--   Agent/State, Agent/Schedule: the state, the heartbeat and the delay (apps-agent/src/loop);
--     Agent/Policies and Agent/Actions: apps-agent/src/policies and actions; Agent/Cache:
--     MemoryCache (apps-agent/src/storage/cache.ts); Agent/Sources: apps-agent/src/sources;
--     Agent/Observer, Agent/Summarizer, Agent/Moduleizer, Agent/Forks with Agent/Llm:
--     apps-agent/src/cognition; Agent/Loop: step and main (apps-agent/src/main.ts).
--   Indexer/Lines and Indexer/Events: the parsers (apps-indexer/src/parsers); Indexer/Persist:
--     persistEvents and Checkpoints; Indexer/Polling: the polling loop, the callback of the log
--     subscription, backfill and the metrics (apps-indexer/src/stream, sync, services).
--   Api/Errors: HttpError (packages/errors/src); Api/Auth: the hook of authPlugin, actorFrom and
--     assertCanWrite; Api/Forks: ForkService.create and the handler of POST /forks; Api/Runs:
--     RunService.create; Api/Storage: StorageService; Api/Modules: ModuleService.create;
--     Api/Answers: the handler of errors, the identifier of a request and the key of the rate limit;
--     Api/Handlers: POST /runs and POST /modules (apps-api/src).
--   Sdk/Client, Sdk/Calls: NuttooClient and the calls of the API (packages/sdk/src).
--   Scripts/Args, Scripts/EnvArgs: the loop of every parseArgs, and what gen-dev-env.ts and
--     gen-prod-env.ts share in it; Scripts/Root: findRepoRoot; Scripts/EnvFile: parseEnvFile,
--     serializeEnvFile and mergeEnv; Scripts/GenDev, Scripts/GenProd, Scripts/Validate: the rest of
--     scripts/env/{gen-dev-env,gen-prod-env,validate-env}.ts.
--   Scripts/Version, Scripts/ReleaseNotes: scripts/ci/{version,release-notes}.ts; Scripts/Seed,
--     Scripts/Reset: scripts/db/{seed,reset}.ts; Scripts/LintTree: scripts/repo/lint-tree.ts;
--     Scripts/Wallets, Scripts/ExportIdls: scripts/solana/{create-test-wallets,export-idls}.ts.
-- Below each of these stand the modules of its theorems, and a module Tests with concrete runs.
--
-- How the code is read. A process that is started is the list of the events it gives: output, the
-- time running out, an error, and the close. What it does to the files is a function. The clock,
-- random numbers, identifiers, the network, the language model, the registry's client, the
-- database's calls and the zod schemas are parameters. A call whose error is caught and logged is a
-- call with no result; a method that the client of the registry does not have is a failure of its
-- own, since it throws before there is a promise to catch. The server registers authPlugin and
-- errorPlugin without fastify-plugin, so Fastify does not apply their hook and their error handler to
-- the routes: both are modelled as they are, and a handler takes req.auth, which is not set then, as
-- an argument. Promises are awaited one after the other in all of the modelled code, so a
-- function of the state stands for each. Numbers are native naturals, and integers where a job may
-- give a negative limit; limits that are no integers are not modelled. Text is compared in ASCII
-- where the code ignores case, as the literals are ASCII. A script is a function from its arguments
-- and the files to the files that it leaves, or to the code that it exits with; the functions of
-- path, Number, URL, localeCompare, git and the other tools are parameters. An object with keys that
-- are read from a file is a list of pairs: keys that JavaScript orders as integers and names that
-- every object inherits are not modelled.
--
-- Loops are structural: on the events of a child, on the files, on the slots from the first to the
-- current one, on the clock readings or surroundings of the rounds. The only fuel is in the decimal
-- digits of a number, which take no more steps than the number is large; the number plus one is
-- given, and Agent/Summarizer/Decimal shows that the digits stand for the number. The search of the
-- repository's root has the twelve rounds that the code gives it.
--
-- Not modelled: the API's routes and its reading operations, which pass queries on to the database;
-- the other shared packages, which wrap libraries; the scripts that print or start programs
-- only, and what the others print on the console; the web and the command line application; the
-- program on the chain, which is Rust; infrastructure; and the reading of the environment by zod.
pub mod Base
pub mod Scripts
pub mod Sdk
pub mod Terminal
pub mod ModuleKit
pub mod Worker
pub mod Agent
pub mod Indexer
pub mod Api
