-- ===== src/Routing/Endpoint/Laws.antt =====
-- Which extensions intercept a path (match.go: AuthEndpoint).
