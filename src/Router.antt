-- ===== src/Router.antt =====
-- include/router/Router.h and src/router/Router.cpp: the route table. A handler is a name that the
-- application gives; what a call of it does is a parameter of the dispatcher. std::regex is a
-- parameter too: `Regex` below.
pub mod Pattern
pub mod Table
mod Tests
