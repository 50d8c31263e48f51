-- ===== src/Lib.antt =====
-- The engineering pod of bimo: a planner, three writers, checkers and reviewers work on a repository
-- in bounded attempts, and a controller that trusts none of them brings one candidate to publication.
-- Beside it, a workflow of roles that hand over to one another makes, verifies and publishes a
-- site. The library models the files that decide this, in JavaScript, and proves what makes
-- them correct.
--
-- Contract (src/pod-contract.mjs): the validators of the template, of an attempt's plan and of every
--   receipt of an agent. A validator is a function into Result, with the source's tests in the
--   source's order and its messages: validatePodTemplate is Contract/Template, validateAttemptPlan
--   Contract/Plan, validateDependencyRequest and validateDeliveredInbox Contract/Inbox,
--   validateWriterReceipt, validateCheckerReceipt and validateConformanceReceipt Contract/Receipts;
--   Contract/Fields, Contract/Paths and Contract/Directories hold the assertions that they share.
-- Store (src/pod-store.mjs): the durable record of a run. The state is the closure's variables and
--   the files of the run directory; an operation takes what the clock and the disk answer (Io) and
--   returns the new state and an outcome, so a failure of the disk in any place is a case.
--   A JSONL file is the list of the lines whose append was carried out; what an append that failed
--   had written is kept apart (remains), and that a file with such remains cannot be read is an
--   input of readInbox.
--   createPodRunStore is create, its operations have their own names, and the checks of
--   openPodRunStore are Store/Open. The promise chain that serializes the operations is a list of
--   steps (Store/Steps).
-- Controller (src/pod-controller.mjs): runEngineeringPod, its local functions and its state. The agents,
--   the source workspace, the verifier, the store and the clock are ports: Controller/World records
--   every call in a trace, and an environment, an arbitrary function of the trace, answers it with a
--   value or an error. The controller calls the validators of Contract on what the agents return
--   and the operations of a store through its port. Controller/Start tests the
--   arguments, Controller/Run is the run, Controller/AttemptRun an attempt, Controller/Writers the
--   functions on one writer, Controller/Candidate the gates, and Controller/Race the race of the three
--   writers: the environment chooses which of them settles next. The loop of the race has as many
--   rounds as there are writers, and the loop over the attempts as many as the template allows, so
--   neither needs more fuel.
-- Workflow (src/workflow.mjs): validateWorkflow is Workflow/Definition, its search for reachable roles
--   Workflow/Graph, validateReceipt Workflow/Receipt, the histories, the changelog and the prompt
--   Workflow/History, and runWorkflow Workflow/Run on the ports and the state of Workflow/World. The
--   files of a run, its clock and the functions that it is given are ports, as in Controller. The fuel
--   of the search is one round for the start and one for each transition of a role; the loop of the
--   run has as many rounds as maxSteps.
-- Deployment (src/deployment-target.mjs, src/deployment-contract.mjs): Deployment/Target resolves where
--   an agent is deployed and makes the commands and the directories for it; Deployment/Manifest
--   validates a manifest, whose target it resolves with Deployment/Target, and plans it.
-- Organizer (src/organize.mjs): Organizer/Catalog validates the catalog of the installed templates and
--   a receipt of an agent against it, Organizer/Vote is chooseTemplate, and Organizer/Run selects a
--   template from the answers of the agents and makes the result. The texts that it checks share
--   their tests with Contract and Workflow/Receipt.
-- Actions: asynchronous code that calls ports, which Controller and Workflow share: an action takes
--   the environment and the state, and returns or throws; Actions/Blocks inverts its do blocks, and
--   Actions/Keeps has what an action leaves alone.
-- Js: JavaScript values as JSON.parse makes them, with the operations that the program uses, among them
--   JSON.stringify. Base: lists, results, text, tests on numbers. Examples: concrete runs, among them a
--   whole run of the controller from the planner to a candidate that is ready.
--
-- Parameters: the hash (sha256) and the environments of the controller and of the workflow; in
-- Organizer the order of localeCompare, in Store/Open the test that a text is an ISO time, in
-- Deployment the real path of a home directory and the test that a fraction is a number of CPUs.
-- Numbers are natural numbers, negative numbers and fractions are values of their own that no test
-- on integers accepts; letters beyond ASCII have no other case. Strings count their UTF-8 bytes, and
-- slice cuts them by their UTF-16 units. Which values structuredClone copies is the environment's
-- choice.
-- A field of undefined or null is undefined where the source would raise a TypeError, unless the
-- model says otherwise (Contract/Inbox).
--
-- Two values other than texts that print alike are one node of a workflow's graph. The clock of a
-- workflow counts whole milliseconds, or is not finite.
--
-- Not modelled: loadPodTemplate, loadWorkflow, the file-system primitives of the store, prunePodRuns
-- and the operations of a store that is opened again, the type tests on the ports, the waiting for
-- executions that are still active after a failure, which changes no state, and, of the organizer,
-- the calls of its agents and their prompt. The ports' own implementations (src/git-runtime.mjs,
-- src/docker-runtime.mjs, src/agent-runtime.mjs, src/source-verify.mjs) are behind the environment;
-- the command line (src/bimo.mjs), the controller of the organizer (src/organizer-controller.mjs),
-- the proxy and the publisher are separate programs around the pod.
pub mod Base
pub mod Js
pub mod Actions
pub mod Contract
pub mod Store
pub mod Controller
pub mod Workflow
pub mod Deployment
pub mod Organizer
pub mod Examples
