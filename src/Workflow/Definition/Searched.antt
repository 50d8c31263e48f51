-- ===== src/Workflow/Definition/Searched.antt =====
-- What the search of `validateWorkflow` (src/workflow.mjs) comes across, once the roles are checked.
