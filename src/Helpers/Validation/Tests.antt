-- ===== src/Helpers/Validation/Tests.antt =====
-- Query parameters on concrete texts.
